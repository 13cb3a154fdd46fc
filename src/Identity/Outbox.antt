-- ===== src/Identity/Outbox.antt =====
-- What modules/identity/sqlx/src/identity/users/sqlite_managed_writer.rs puts in the outbox: mails
-- and changes of the search index, each under a key that makes it once.
use Prim.Native.String.{◌++◌, compare}
use Prim.Native.Nat.{Ordering}
use hegira.Base.{
  ℕ, zero, suc, ◌/◌, ◌%◌, String, Bool, Option, some, List, [], ◌∷◌, ◌==◌, ltb, is_some,
  if◌then◌else◌, Result, ok, err,
}
use hegira.Base.Actions.{◌>>=◌}
use hegira.Jobs.Outbox.{new_row, insert_outbox}
use hegira.Identity.Errors.{ApplicationError}
use hegira.Identity.Mail.{TransactionalMail}
use hegira.Identity.Store.{
  UserRole, SearchIndexCommand, Payload, World, Service, utc_now, new_token, statement,
}
use hegira.Identity.Users.{User}

digit : ℕ → String
digit n =
    if n == 0
    then "0"
    else if n == 1
    then "1"
    else if n == 2
    then "2"
    else if n == 3
    then "3"
    else if n == 4
    then "4"
    else if n == 5
    then "5"
    else if n == 6
    then "6"
    else if n == 7
    then "7"
    else if n == 8
    then "8"
    else "9"

digits : ℕ → ℕ → String
digits zero n = ""
digits (suc fuel) n =
    let front = digits fuel (n / 10) in if ltb n 10 then digit n else front ++ digit (n % 10)

-- `to_string` of a number. Twenty digits are those of any 64-bit number.
unfoldable pub decimal : ℕ → String
unfolding digit digits
decimal n = digits 20 n

abbrev pub user_index : String
user_index = "identity_users"

abbrev pub send_mail_job : String
send_mail_job = "mail.send.v1"

abbrev pub search_index_job : String
search_index_job = "search.index.v1"

-- `db_error` of the writer.
abbrev pub writer_error : String → ApplicationError
writer_error e = ApplicationError.infrastructure e

-- A statement of the writer that succeeds whenever the database runs it.
abbrev pub run : {A : Type 0} → (World → A × World) → Service A
run f = statement writer_error (λ s. let (a, t) = f s in (ok a, t))

-- `begin` and `commit`
abbrev pub begin : Service (Unit {0})
begin = run (λ s. (tt, s))

abbrev pub commit : Service (Unit {0})
commit = run (λ s. (tt, s))

abbrev pub forget : Result String String → Result String (Unit {0})
forget (ok id) = ok tt
forget (err e) = err e

unfoldable pub enqueue_outbox : String → Payload → Option String → Service (Unit {0})
enqueue_outbox name payload key = do
  now ← utc_now
  id ← new_token
  statement writer_error λ s.
      let (inserted, outbox) = insert_outbox (new_row id name payload key 5 now) s.outbox in
      (forget inserted, record s { outbox = outbox })

-- The key holds the time in microseconds.
abbrev pub mail_key : String → String → ℕ → String
mail_key purpose username timestamp =
    "mail:" ++ purpose ++ ":" ++ username ++ ":" ++ decimal (timestamp / 1000)

unfoldable pub enqueue_mail : TransactionalMail → String → String → ℕ → Service (Unit {0})
enqueue_mail mail purpose username timestamp =
    enqueue_outbox send_mail_job (Payload.send_mail mail)
      (some (mail_key purpose username timestamp))

unfoldable pub enqueue_search : SearchIndexCommand → String → ℕ → Service (Unit {0})
enqueue_search command pid revision =
    enqueue_outbox search_index_job (Payload.search_index command)
      (some (user_index ++ ":" ++ pid ++ ":" ++ decimal revision))

-- `enqueue_user_upsert`
unfoldable pub enqueue_user_upsert :
    String → String → ℕ → Bool → List String → ℕ → Service (Unit {0})
enqueue_user_upsert pid username created_at is_verified roles revision =
    enqueue_search
      (SearchIndexCommand.upsert user_index
        (record {
          id = pid;
          username = username;
          created_at = created_at;
          is_verified = is_verified;
          roles = roles;
        }
          ∷ [])
        (some revision))
      pid revision

unfoldable pub enqueue_upsert : User → List String → ℕ → Service (Unit {0})
enqueue_upsert user roles revision =
    enqueue_user_upsert user.pid user.username user.created_at (is_some user.email_verified_at)
      roles revision

insert_name : String → List String → List String
insert_name a [] = a ∷ []
insert_name a (b ∷ names) =
    let rest = insert_name a names in
    elim (compare a b) [ Ordering.gt ↦ b ∷ rest | _ ↦ a ∷ b ∷ names ]

-- `fetch_roles`
unfoldable pub roles_of : ℕ → List UserRole → List String
unfolding insert_name
roles_of id [] = []
roles_of id (row ∷ rows) =
    let rest = roles_of id rows in
    if row.user_id == id then insert_name row.role_name rest else rest
