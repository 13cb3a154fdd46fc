-- ===== src/Identity/Emails.antt =====
-- `request_email_change`, `confirm_email_change` and `delete_managed_user` of
-- modules/identity/sqlx/src/identity/users/sqlite_managed_writer.rs.
use hegira.Base.{
  ℕ, ◌+◌, ◌-◌, String, Bool, true, false, ◌&&◌, not, Option, none, some, List, ◌==◌, is_none,
  is_some, if◌then◌else◌, find, any, retain, length, update_where, Result, ok, err,
}
use hegira.Base.Actions.{◌>>=◌, ◌>>◌, pure, transaction}
use hegira.Identity.Mail.{TransactionalMail}
use hegira.Identity.Store.{UserRow, SearchIndexCommand, World, Service, utc_now, statement, restore}
use hegira.Identity.Sessions.{is_user}
use hegira.Identity.TwoFactor.{is_equal, is_after}
use hegira.Identity.Outbox.{user_index, writer_error, run, begin, commit, enqueue_search}
use hegira.Identity.Writer.{hour, changed, publish_changed, mail_if_some}

-- The `WHERE` of the request: the address is of no account that stands.
unfoldable pub may_change : String → String → List UserRow → UserRow → Bool
may_change username new_email users row =
    is_user username row && not (any (is_user new_email) users)

abbrev pub put_email_change : String → String → ℕ → UserRow → UserRow
put_email_change new_email token sent_at row = record row {
  pending_email = some new_email;
  email_change_token = some token;
  email_change_sent_at = some sent_at;
}

-- `email_change_token` is unique.
unfoldable pub request_rows : String → String → String → ℕ → World → Result String Bool × World
request_rows username new_email token sent_at s =
    let p = may_change username new_email s.users in
    if any p s.users && any (λ row. is_equal row.email_change_token token && not (p row)) s.users
    then (err "UNIQUE constraint failed: users.email_change_token", s)
    else (
      ok (length (retain p s.users) == 1),
      record s { users = update_where p (put_email_change new_email token sent_at) s.users },
    )

unfoldable pub request_email_change :
    String → String → String → ℕ → Option TransactionalMail → Service Bool
request_email_change username new_email token sent_at mail = transaction restore do
  begin
  updated ← statement writer_error (request_rows username new_email token sent_at)
  if updated then mail_if_some mail "change_email" username sent_at else pure tt
  commit
  pure updated

unfoldable pub is_confirming : String → ℕ → UserRow → Bool
is_confirming token confirmed_at row =
    is_equal row.email_change_token token
    && is_after row.email_change_sent_at (confirmed_at - hour)
    && is_some row.pending_email
    && is_none row.deleted_at

abbrev pub or_else : Option String → String → String
or_else none s = s
or_else (some t) s = t

abbrev pub confirm_row : ℕ → UserRow → UserRow
confirm_row confirmed_at row = record row {
  username = or_else row.pending_email row.username;
  pending_email = none;
  email_change_token = none;
  email_change_sent_at = none;
  email_verified_at = some confirmed_at;
  search_revision = row.search_revision + 1;
}

-- `username` is unique among all rows, those of deleted accounts too.
unfoldable pub confirm_rows : String → ℕ → World → Result String (Option UserRow) × World
confirm_rows token confirmed_at s = elim (find (is_confirming token confirmed_at) s.users) [
  | none ↦ (ok none, s)
  | some row ↦
      if any
        (λ other.
          is_equal row.pending_email other.username && not (is_confirming token confirmed_at other))
        s.users
      then (err "UNIQUE constraint failed: users.username", s)
      else (
        ok (some (confirm_row confirmed_at row)),
        record s {
          users =
              update_where (is_confirming token confirmed_at) (confirm_row confirmed_at) s.users;
        },
      )
]

unfoldable pub confirm_email_change : String → ℕ → Bool → Service Bool
confirm_email_change token confirmed_at publish_search = transaction restore do
  begin
  row ← statement writer_error (confirm_rows token confirmed_at)
  publish_changed row publish_search "changed user was not found"

abbrev pub delete_row : ℕ → UserRow → UserRow
delete_row now row = record row { deleted_at = some now; search_revision = row.search_revision + 1 }

unfoldable pub publish_deletion : Bool → UserRow → Service (Unit {0})
publish_deletion false row = pure tt
publish_deletion true row =
    enqueue_search (SearchIndexCommand.delete user_index row.pid (some row.search_revision)) row.pid
      row.search_revision

unfoldable pub finish_deletion : Option UserRow → Bool → Service Bool
finish_deletion none publish_search = pure false
finish_deletion (some row) publish_search = do
  publish_deletion publish_search row
  commit
  pure true

unfoldable pub delete_managed_user : String → Bool → Service Bool
delete_managed_user username publish_search = transaction restore do
  begin
  now ← utc_now
  row ← run λ s. (
    changed (delete_row now) (find (is_user username) s.users),
    record s { users = update_where (is_user username) (delete_row now) s.users },
  )
  finish_deletion row publish_search
