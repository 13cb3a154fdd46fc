-- ===== src/Identity/Auth/Live.antt =====
-- A login of the right user with the right password goes through.
use hegira.Base.{
  ℕ, ◌+◌, String, ◌≡◌, refl, sym, ap, ◌∙◌, subst, Bool, true, false, ◌||◌, Option, none, some, List,
  [], ◌∷◌, ◌++◌, str_eq, find, any, any-append, Bool-cases, inl, inr, if◌then◌else◌, arith, eq_iff,
  Result, ok,
}
use hegira.Base.Actions.{◌>>=◌, pure, raise, raise_if, some_or, after}
use hegira.Identity.Errors.{DomainError, ApplicationError, ApplicationResult}
use hegira.Identity.Store.{
  UserRow, SessionRow, World, IdentityServices, Repository, Service, outside, answer, statement,
  db_error,
}
use hegira.Identity.Sessions
use hegira.Identity.Sessions.{is_user, clashes, insert_for, add_session}
use hegira.Identity.Sessions.Rows.{has_token}
use hegira.Identity.Users.{map_user, find_by_username}
use hegira.Identity.TwoFactor.{credential_by_username}
use hegira.Identity.Auth.{
  from_repository, via, try_outside, verify_hash, create_token, token_expiry,
  next_session_expires_at, create_session,
}
use hegira.Identity.Auth.Success.{tick}
use hegira.Identity.Auth.Guards.{has_second_factor}
use hegira.Identity.Auth.Login.{authenticated, start_session, login}

module _ {A B : Type 0} (R : Result ApplicationError B × World → Type 0) (k : A → Service B) where
  answer_goes :
      (o : Option String) (m : Result String A × World) (r : IdentityServices) (s : World) (a : A)
      (t : World)
      → o ≡ none
      → m ≡ (ok a, t)
      → R (k a r t)
      → R (
          after
            (from_repository (answer db_error o m s)).0
            k
            r
            (from_repository (answer db_error o m s)).1)
  unfolding answer
  answer_goes none m r s a t h e goes =
      subst
        (λ (p : Result String A × World). R (
          after (from_repository (answer db_error none p s)).0 k r
            (from_repository (answer db_error none p s)).1))
        (sym e) goes
  answer_goes (some e') m r s a t h e goes = cc h

  statement-goes :
      (f : World → Result String A × World) (r : IdentityServices) (s : World) (a : A) (t : World)
      → r.db_error_at s.ticks ≡ none
      → f (tick s) ≡ (ok a, t)
      → R (k a r t)
      → R ((via (statement db_error f) >>= k) r s)
  unfolding ◌>>=◌ via statement
  statement-goes f r s a t h e goes =
      answer_goes (r.db_error_at s.ticks) (f (tick s)) r (tick s) a t h e goes

  after_goes :
      (o : ApplicationResult A) (r : IdentityServices) (s : World) (a : A)
      → o ≡ ok a
      → R (k a r s)
      → R (after o k r s)
  after_goes o r s a h goes = subst (λ (o : ApplicationResult A). R (after o k r s)) (sym h) goes

  try_outside-goes :
      (f : IdentityServices → ℕ → ApplicationResult A) (r : IdentityServices) (s : World) (a : A)
      → f r s.ticks ≡ ok a
      → R (k a r (tick s))
      → R ((try_outside f >>= k) r s)
  unfolding ◌>>=◌ try_outside outside
  try_outside-goes f r s a h goes = after_goes (f r s.ticks) r (tick s) a h goes

  some_or-goes :
      (o : Option A) (e : ApplicationError) (r : IdentityServices) (s : World) (a : A)
      → o ≡ some a
      → R (k a r s)
      → R ((some_or o e >>= k) r s)
  unfolding ◌>>=◌
  some_or-goes o e r s a h goes = subst (λ (x : Option A). R ((some_or x e >>= k) r s)) (sym h) goes

module _ {B : Type 0} (R : Result ApplicationError B × World → Type 0)
    (k : Unit {0} → Service B) where
  raise_if-goes :
      (c : Bool) (e : ApplicationError) (r : IdentityServices) (s : World)
      → c ≡ false
      → R (k tt r s)
      → R ((raise_if c e >>= k) r s)
  unfolding ◌>>=◌
  raise_if-goes true e r s h goes = cc h
  raise_if-goes false e r s h goes = goes

find-IsUser :
    (username : String) (rows : List UserRow) (row : UserRow)
    → find (is_user username) rows ≡ some row
    → str_eq row.username username ≡ true
unfolding find is_user
find-IsUser username [] row h = cc
find-IsUser username (first ∷ rows) row h = elim (Bool-cases (is_user username first)) [
  | inl p ↦ ground (arith, p, h)
  | inr n ↦ find-IsUser username rows row (ground (arith, n, h))
]

add_session-eq :
    (row : SessionRow) (s : World)
    → any (clashes row) s.sessions ≡ false
    → add_session row s ≡ (ok true, record s { sessions = s.sessions ++ row ∷ [] })
unfolding add_session
add_session-eq row s h = ground (arith, h)

insert_for-eq :
    {o : Option UserRow} (row : UserRow) (pid token : String)
    (created_at expires_at max_expires_at : ℕ) (s : World)
    → o ≡ some row
    → any (λ old. str_eq old.token token || str_eq old.pid pid) s.sessions ≡ false
    → insert_for o pid token created_at expires_at max_expires_at s ≡ (
      ok true,
      record s {
        sessions =
            s.sessions
            ++ record {
              pid = pid;
              token = token;
              user_id = row.id;
              created_at = created_at;
              expires_at = expires_at;
              max_expires_at = max_expires_at;
            }
              ∷ [];
      },
    )
unfolding insert_for
insert_for-eq row pid token created_at expires_at max_expires_at s h fresh =
    ap (λ (x : Option UserRow). insert_for x pid token created_at expires_at max_expires_at s) h
    ∙ add_session-eq _ s fresh

abbrev finish : DomainError → Bool → Repository (Unit {0})
finish e inserted = if inserted then pure tt else raise e

module _ {B : Type 0} (R : Result ApplicationError B × World → Type 0)
    (k : Unit {0} → Service B) where
  abbrev InsertedAt :
      Option String → Result String Bool × World → DomainError → IdentityServices → World → Type 0
  InsertedAt o m e r s =
      let inserted = after (answer db_error o m s).0 (finish e) r (answer db_error o m s).1 in
      R (after (from_repository inserted).0 k r (from_repository inserted).1)

  inserted_goes :
      (o : Option String) (m : Result String Bool × World) (e : DomainError) (r : IdentityServices)
      (s t : World)
      → o ≡ none
      → m ≡ (ok true, t)
      → R (k tt r t)
      → InsertedAt o m e r s
  unfolding answer ◌>>=◌
  inserted_goes o m e r s t h h' goes =
      subst (λ (x : Option String). InsertedAt x m e r s) (sym h)
        (subst (λ (p : Result String Bool × World). InsertedAt none p e r s) (sym h') goes)

  insert_statement-goes :
      (f : World → Result String Bool × World) (e : DomainError) (r : IdentityServices)
      (s t : World)
      → r.db_error_at s.ticks ≡ none
      → f (tick s) ≡ (ok true, t)
      → R (k tt r t)
      → R ((via (statement db_error f >>= finish e) >>= k) r s)
  unfolding ◌>>=◌ via statement
  insert_statement-goes f e r s t h h' goes =
      inserted_goes (r.db_error_at s.ticks) (f (tick s)) e r (tick s) t h h' goes

-- The insertion of a session for a user that stands.
insert-goes :
    {B : Type 0} (R : Result ApplicationError B × World → Type 0) (k : Unit {0} → Service B)
    (token username : String) (expires_at max_expires_at : ℕ) (row : UserRow) (r : IdentityServices)
    (s : World)
    → ((t : ℕ) → r.db_error_at t ≡ none)
    → find (is_user username) s.users ≡ some row
    → ((t : ℕ)
        → any (λ old. str_eq old.token token || str_eq old.pid (r.uuid_at t)) s.sessions ≡ false)
    → ((session : SessionRow) (t : World)
        → session.token ≡ token
        → t.sessions ≡ s.sessions ++ session ∷ []
        → R (k tt r t))
    → R ((via (Sessions.insert token username expires_at max_expires_at) >>= k) r s)
unfolding Sessions.insert outside ◌>>=◌ via
insert-goes R k token username expires_at max_expires_at row r s sound found fresh goes =
    let session : SessionRow = record {
      pid = r.uuid_at s.ticks;
      token = token;
      user_id = row.id;
      created_at = r.now_at (s.ticks + 1);
      expires_at = expires_at;
      max_expires_at = max_expires_at;
    } in
    let before = tick (tick (tick s)) in
    let after_insert : World = record before { sessions = before.sessions ++ session ∷ [] } in
    insert_statement-goes R k _ (DomainError.not_found "User not found") r (tick (tick s))
      after_insert (sound _)
      (insert_for-eq row session.pid token session.created_at expires_at max_expires_at before found
        (fresh s.ticks))
      (goes session after_insert refl refl)

-- A session was begun.
abbrev HasBegun : {A : Type 0} → A → String → Result ApplicationError A × World → Type 0
HasBegun a token p = (p.0 ≡ ok a) × (has_token token p.1.sessions ≡ true)

any-last :
    (token : String) (rows : List SessionRow) (session : SessionRow)
    → session.token ≡ token
    → (has_token token rows || has_token token (session ∷ [])) ≡ true
unfolding any
any-last token rows session same = ground (arith, same, eq_iff session.token token)

has_token-append :
    (token : String) (rows sessions : List SessionRow) (session : SessionRow)
    → session.token ≡ token
    → sessions ≡ rows ++ session ∷ []
    → has_token token sessions ≡ true
has_token-append token rows sessions session same e =
    ap (has_token token) e
    ∙ any-append (λ row. str_eq row.token token) rows (session ∷ [])
    ∙ any-last token rows session same

create_session-HasBegun :
    (username token : String) (row : UserRow) (r : IdentityServices) (s : World)
    → ((t : ℕ) → r.db_error_at t ≡ none)
    → find (is_user username) s.users ≡ some row
    → ((t : ℕ) → r.create_token_at t username ≡ ok token)
    → ((t : ℕ)
        → any (λ old. str_eq old.token token || str_eq old.pid (r.uuid_at t)) s.sessions ≡ false)
    → HasBegun token token (create_session username r s)
unfolding create_session create_token token_expiry next_session_expires_at outside ◌>>=◌
create_session-HasBegun username token row r s sound found made fresh =
    try_outside-goes (HasBegun token token) _ _ r s token (made s.ticks) (
      insert-goes (HasBegun token token) (λ _. pure token) token username _ _ row r _ sound found
        fresh
        λ session t same e. (refl, has_token-append token s.sessions t.sessions session same e))

start_session-HasBegun :
    (username token : String) (enabled : Bool) (row : UserRow) (r : IdentityServices) (s : World)
    → enabled ≡ false
    → ((t : ℕ) → r.db_error_at t ≡ none)
    → find (is_user username) s.users ≡ some row
    → ((t : ℕ) → r.create_token_at t username ≡ ok token)
    → ((t : ℕ)
        → any (λ old. str_eq old.token token || str_eq old.pid (r.uuid_at t)) s.sessions ≡ false)
    → HasBegun (authenticated token) token (start_session username enabled r s)
unfolding start_session ◌>>=◌
start_session-HasBegun username token true row r s plain sound found made fresh = cc plain
start_session-HasBegun username token false row r s plain sound found made fresh =
    let (answered, has) = create_session-HasBegun username token row r s sound found made fresh in
    subst
      (λ (o : ApplicationResult String).
        HasBegun (authenticated token) token
          (after o (λ token. pure (authenticated token)) r (create_session username r s).1))
      (sym answered) (refl, has)

-- A login with the name and the password of an account that stands and has no second factor goes
-- through, and the token that it gives has a session, where the database does not fail and the new
-- token and the ids of new sessions are not taken.
pub login-HasBegun :
    (username password token : String) (row : UserRow) (r : IdentityServices) (s : World)
    → str_eq username "" || str_eq password "" ≡ false
    → find (is_user username) s.users ≡ some row
    → r.verify_hash password row.password_hash ≡ ok true
    → has_second_factor row.username s.users ≡ false
    → ((t : ℕ) → r.db_error_at t ≡ none)
    → ((t : ℕ) → r.create_token_at t row.username ≡ ok token)
    → ((t : ℕ)
        → any (λ old. str_eq old.token token || str_eq old.pid (r.uuid_at t)) s.sessions ≡ false)
    → ((login username password r s).0 ≡ ok (authenticated token))
      × (has_token token (login username password r s).1.sessions ≡ true)
unfolding login find_by_username verify_hash credential_by_username map_user
login-HasBegun username password token row r s given found right plain sound made fresh =
    let R = HasBegun (authenticated token) token in
    let same = (eq_iff row.username username).0 (find-IsUser username s.users row found) in
    let stands : find (is_user row.username) s.users ≡ some row =
      ap (λ (name : String). find (is_user name) s.users) same ∙ found in
    raise_if-goes R _ _ _ r s given (
      statement-goes R _ _ r s _ (tick s) (sound _)
        (ap (λ (o : Option UserRow). (ok (map_user o), tick s)) found)
        (some_or-goes R _ _ _ r _ _ refl (
          try_outside-goes R _ _ r _ true right (
            raise_if-goes R _ false _ r _ refl (
              statement-goes R _ _ r _ _ _ (sound _) refl (
                start_session-HasBegun row.username token _ row r _ plain sound stands made
                  fresh))))))
