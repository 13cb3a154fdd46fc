-- ===== src/Identity/Auth/Taken.antt =====
-- Names of accounts that are taken, and what a stranger's request leaves alone.
use hegira.Base.{
  ℕ, if◌then◌else◌, String, ◌≡◌, refl, ap, Bool, true, false, not, ◌&&◌, Option, none, some, str_eq,
  find, any, arith, Result, ok, err,
}
use hegira.Base.Actions.{◌>>=◌, pure, lift, transaction, after, settle}
use hegira.Identity.Errors.{ApplicationError, ApplicationResult}
use hegira.Identity.Validation.{optional_username}
use hegira.Identity.Store.{
  UserRow, World, IdentityServices, Service, answer, statement, db_error, restore,
}
use hegira.Identity.Sessions.{is_user}
use hegira.Identity.Users.{User, map_user, find_by_username}
use hegira.Identity.TwoFactor.{is_equal}
use hegira.Identity.Outbox.{writer_error, run}
use hegira.Identity.Writer.{RegisterManagedUser, insert_user, register_managed_user}
use hegira.Identity.Emails.{is_confirming, confirm_rows, confirm_email_change}
use hegira.Identity.Auth.{from_repository, via}
use hegira.Identity.Auth.Accounts.{send_reset, forgot_password}
use hegira.Identity.Auth.Success.{tick, some_or-eq-ok, outside-eq-ok}

module _ {A B : Type 0} {r : IdentityServices} {b : B} {t : World} where
  answer-write :
      (o : Option String) (m : Result String A × World) (s : World) (k : A → Service B)
      → after (answer writer_error o m s).0 k r (answer writer_error o m s).1 ≡ (ok b, t)
      → (a : A) × (s' : World) × (m ≡ (ok a, s')) × (k a r s' ≡ (ok b, t))
  unfolding answer
  answer-write none (ok a, s') s k h = (a, s', refl, h)
  answer-write none (err e, s') s k h = cc (ap (λ (p : Result ApplicationError B × World). p.0) h)
  answer-write (some e) m s k h = cc (ap (λ (p : Result ApplicationError B × World). p.0) h)

  pub write-eq-ok :
      (f : World → Result String A × World) (k : A → Service B) (s : World)
      → (statement writer_error f >>= k) r s ≡ (ok b, t)
      → (a : A) × (s' : World) × (f (tick s) ≡ (ok a, s')) × (k a r s' ≡ (ok b, t))
  unfolding ◌>>=◌ statement
  write-eq-ok f k s h = answer-write (r.db_error_at s.ticks) (f (tick s)) (tick s) k h

  answer-begin :
      (o : Option String) (a : A) (s : World) (k : A → Service B)
      → after (answer writer_error o (ok a, s) s).0 k r (answer writer_error o (ok a, s) s).1
        ≡ (ok b, t)
      → k a r s ≡ (ok b, t)
  unfolding answer
  answer-begin none a s k h = h
  answer-begin (some e) a s k h = cc (ap (λ (p : Result ApplicationError B × World). p.0) h)

  pub begin-eq-ok :
      (a : A) (k : A → Service B) (s : World)
      → (run (λ s. (a, s)) >>= k) r s ≡ (ok b, t)
      → k a r (tick s) ≡ (ok b, t)
  unfolding ◌>>=◌ statement
  begin-eq-ok a k s h = answer-begin (r.db_error_at s.ticks) a (tick s) k h

pub settle-eq-ok :
    {E B : Type 0} (s : World) (m : Result E B × World) {b : B} {t : World}
    → settle restore s m ≡ (ok b, t)
    → m ≡ (ok b, t)
settle-eq-ok s (ok b, t) h = h
settle-eq-ok {E = E} {B = B} s (err e, t) h = cc (ap (λ (p : Result E B × World). p.0) h)

insert_user-taken :
    (row : UserRow) (s : World) {o : Option ℕ} {t : World}
    → any (λ old. str_eq old.username row.username) s.users ≡ true
    → insert_user row s ≡ (ok o, t)
    → o ≡ none
unfolding insert_user
insert_user-taken row s taken h =
    ground (arith, ap (λ (p : Result String (Option ℕ) × World). p.0) h)

-- No account is registered under a name that the table has, be it that of a deleted account.
pub register_managed_user-once :
    (command : RegisterManagedUser) (r : IdentityServices) (s : World) {user : User} {t : World}
    → any (λ old. str_eq old.username command.username) s.users ≡ true
    → ¬ (register_managed_user command r s ≡ (ok user, t))
unfolding register_managed_user transaction
register_managed_user-once command r s taken h =
    let h1 = begin-eq-ok _ _ _ (settle-eq-ok s _ h) in
    let (inserted, s', ran, h2) =
      write-eq-ok _ _ _ (outside-eq-ok _ _ _ _ (outside-eq-ok _ _ _ _ h1)) in
    let (revision, found, _) = some_or-eq-ok _ _ _ _ h2 in
    let absent = insert_user-taken _ (tick (tick (tick (tick s)))) taken ran in cc (absent, found)

confirm_rows-taken :
    (token : String) (now : ℕ) (s : World) (row : UserRow) {o : Option UserRow} {t : World}
    → find (is_confirming token now) s.users ≡ some row
    → any
        (λ other. is_equal row.pending_email other.username && not (is_confirming token now other))
        s.users
      ≡ true
    → ¬ (confirm_rows token now s ≡ (ok o, t))
unfolding confirm_rows
confirm_rows-taken token now s row found taken h =
    ground (arith, ap (λ (p : Result String (Option UserRow) × World). p.0) h)

-- The address of a deleted account can be asked for but never confirmed: the confirmation fails while
-- any other row, of a deleted account too, has the pending address.
pub confirm_email_change-taken :
    (token : String) (now : ℕ) (publish_search : Bool) (r : IdentityServices) (s : World)
    (row : UserRow) {b : Bool} {t : World}
    → find (is_confirming token now) s.users ≡ some row
    → any
        (λ other. is_equal row.pending_email other.username && not (is_confirming token now other))
        s.users
      ≡ true
    → ¬ (confirm_email_change token now publish_search r s ≡ (ok b, t))
unfolding confirm_email_change transaction
confirm_email_change-taken token now publish_search r s row found taken h =
    let h1 = begin-eq-ok _ _ _ (settle-eq-ok s _ h) in
    let (o, s', ran, _) = write-eq-ok _ _ _ h1 in
    confirm_rows-taken token now (tick (tick s)) row found taken ran

-- All tables and the mails are the same; only calls to the outside may have been made.
abbrev pub HasSameTables : World → World → Type 0
HasSameTables t s = t ≡ record s { ticks = t.ticks }

stranger_read :
    (o : Option String) (found : Option UserRow) (r : IdentityServices) (s : World)
    → found ≡ none
    → HasSameTables
        (after
          (from_repository (answer db_error o (ok (map_user found), s) s)).0
          send_reset
          r
          (from_repository (answer db_error o (ok (map_user found), s) s)).1).1
        s
unfolding answer map_user send_reset ◌>>=◌
stranger_read none none r s h = refl
stranger_read none (some row) r s h = cc
stranger_read (some e) found r s h = refl

stranger_given :
    (o : ApplicationResult Bool) (username : String) (r : IdentityServices) (s : World)
    → find (is_user username) s.users ≡ none
    → HasSameTables
        ((lift o >>= λ given.
            if given then via (find_by_username username) >>= send_reset else pure tt)
          r s).1
        s
unfolding ◌>>=◌ via find_by_username statement
stranger_given (err e) username r s h = refl
stranger_given (ok false) username r s h = refl
stranger_given (ok true) username r s h =
    stranger_read (r.db_error_at s.ticks) (find (is_user username) s.users) r (tick s) h

-- A reset that is asked for a name that no account has changes no table and sends no mail, whatever
-- it answers.
pub forgot_password-stranger :
    (username : String) (r : IdentityServices) (s : World)
    → find (is_user username) s.users ≡ none
    → HasSameTables (forgot_password username r s).1 s
unfolding forgot_password
forgot_password-stranger username r s h = stranger_given (optional_username username) username r s h
