-- ===== src/Identity/Auth/Guards.antt =====
-- What a success of the authentication service means: who is let in, and what a request has used up.
use hegira.Base.{
  ℕ, ◌+◌, String, ◌≡◌, refl, sym, ap, ◌∙◌, Bool, true, false, not, ◌&&◌, ◌||◌, Option, none, some,
  List, [], ◌∷◌, is_some, is_none, str_eq, find, any, retain, arith, eq_iff, Result, ok,
  ok-injective,
}
use hegira.Base.Actions.{◌>>=◌, lift, some_or, bind-eq-ok}
use hegira.Identity.Errors.{ApplicationError, ApplicationResult}
use hegira.Identity.Store.{UserRow, SessionRow, World, IdentityServices, outside}
use hegira.Identity.Sessions.{Session, is_user, is_live, join_live, find_by_token, delete}
use hegira.Identity.Sessions.Rows.{has_token}
use hegira.Identity.Users.{User, map_user, find_by_username}
use hegira.Identity.TwoFactor.{
  map_credential, credential_by_username, set_login_token, update_users,
}
use hegira.Identity.Auth.{
  CurrentUserDto, try_outside, verify_token, verify_hash, current_user, logout,
}
use hegira.Identity.Auth.Login.{LoginResultDto, is_enabled, start_session, login}
use hegira.Identity.Auth.Success.{
  tick, statement-eq-ok, query-eq-ok, try_outside-eq-ok, some_or-eq-ok, raise_if-eq-ok,
  raise_if-last, pure-eq-ok, outside-eq-ok, via-outside-eq-ok,
}

-- The second factor of an account.
abbrev pub has_second_factor : String → List UserRow → Bool
has_second_factor username users =
    is_enabled
      (map_credential (find (λ row. is_user username row && is_some row.totp_secret) users))

pub map_user-eq-some :
    (o : Option UserRow) {user : User}
    → map_user o ≡ some user
    → (row : UserRow) × (o ≡ some row)
      × (row.username ≡ user.username)
      × (row.password_hash ≡ user.password_hash)
      × (row.magic_link_expires_at ≡ user.magic_link_expires_at)
unfolding map_user
map_user-eq-some none h = cc
map_user-eq-some (some row) h = (row, refl, cc, cc, cc)

-- The answer of `start_session` has a session token exactly if there was no second factor.
start_session-token :
    (username : String) (enabled : Bool) (r : IdentityServices) (s : World) {dto : LoginResultDto}
    {t : World}
    → start_session username enabled r s ≡ (ok dto, t)
    → is_some dto.token ≡ not enabled
unfolding start_session set_login_token update_users
start_session-token username true r s h =
    let (_, _, _, h1) = statement-eq-ok _ _ _ (outside-eq-ok _ _ _ _ (outside-eq-ok _ _ _ _ h)) in
    let (_, h2) = raise_if-eq-ok _ _ _ _ h1 in
    sym (ap (λ (d : LoginResultDto). is_some d.token) (pure-eq-ok _ _ _ h2).0)
start_session-token username false r s h =
    let (_, _, _, h1) = bind-eq-ok _ _ r s h in
    sym (ap (λ (d : LoginResultDto). is_some d.token) (pure-eq-ok _ _ _ h1).0)

pub not-eq-false : (b : Bool) → not b ≡ false → b ≡ true
not-eq-false true h = refl
not-eq-false false h = cc

pub some_or_last :
    {A : Type 0} (o : Option A) (e : ApplicationError) (r : IdentityServices) (s : World) {a : A}
    {t : World}
    → some_or o e r s ≡ (ok a, t)
    → (b : A) × (o ≡ some b) × (b ≡ a)
unfolding ◌>>=◌
some_or_last {A = A} none e r s h = cc (ap (λ (p : Result ApplicationError A × World). p.0) h)
some_or_last {A = A} (some b) e r s h =
    (b, refl, ok-injective (ap (λ (p : Result ApplicationError A × World). p.0) h))

after_last :
    {A : Type 0} (o : ApplicationResult A) (r : IdentityServices) (s : World) {a : A} {t : World}
    → lift o r s ≡ (ok a, t)
    → o ≡ ok a
unfolding ◌>>=◌
after_last {A = A} o r s h = ap (λ (p : ApplicationResult A × World). p.0) h

pub try_outside_last :
    {A : Type 0} (f : IdentityServices → ℕ → ApplicationResult A) (r : IdentityServices) (s : World)
    {a : A} {t : World}
    → try_outside f r s ≡ (ok a, t)
    → f r s.ticks ≡ ok a
unfolding ◌>>=◌ try_outside outside
try_outside_last f r s h = after_last (f r s.ticks) r (tick s) h

-- A login that succeeds is one of an account that stands, with its password; it gives a session at
-- once exactly if the account has no second factor.
pub login-IsGuarded :
    (username password : String) (r : IdentityServices) (s : World) {dto : LoginResultDto}
    {t : World}
    → login username password r s ≡ (ok dto, t)
    → (row : UserRow) × (find (is_user username) s.users ≡ some row)
      × (r.verify_hash password row.password_hash ≡ ok true)
      × (is_some dto.token ≡ not (has_second_factor row.username s.users))
unfolding login find_by_username verify_hash credential_by_username
login-IsGuarded username password r s h =
    let (_, h1) = raise_if-eq-ok _ _ _ _ h in
    let (user, found, h3) = some_or-eq-ok _ _ _ _ (query-eq-ok _ _ _ h1) in
    let (verified, checked, h4) = try_outside-eq-ok _ _ _ h3 in
    let (valid, h5) = raise_if-eq-ok _ _ _ _ h4 in
    let h6 = query-eq-ok _ _ _ h5 in
    let (row, is_row, same_name, same_hash, _) = map_user-eq-some _ found in
    (
      row,
      is_row,
      ap (r.verify_hash password) same_hash ∙ checked ∙ ap ok (not-eq-false verified valid),
      start_session-token user.username _ r _ h6
          ∙ ap (λ (name : String). not (has_second_factor name s.users)) (sym same_name),
    )

has_token-delete :
    (token : String) (rows : List SessionRow)
    → has_token token (retain (λ row. not (str_eq row.token token)) rows) ≡ false
unfolding any retain
has_token-delete token [] = refl
has_token-delete token (row ∷ rows) = ground (arith, has_token-delete token rows)

-- A logout that succeeds had a session to end and leaves none of its token; nothing else in any table
-- is touched, and no mail is sent.
pub logout-ends :
    (token : String) (r : IdentityServices) (s : World) {u : Unit {0}} {t : World}
    → logout token r s ≡ (ok u, t)
    → (has_token token s.sessions ≡ true)
      × (has_token token t.sessions ≡ false)
      × (t
          ≡ tick (
              tick
                (record s { sessions = retain (λ row. not (str_eq row.token token)) s.sessions })))
unfolding logout verify_token delete
logout-ends token r s {t = t} h =
    let (_, _, h1) = try_outside-eq-ok _ _ _ h in
    let (deleted, s', ran, h2) = statement-eq-ok _ _ _ h1 in
    let (had, same) = raise_if-last _ _ _ _ h2 in
    let kept : ◌≡◌ {A = World} t (
        tick (
          tick (record s { sessions = retain (λ row. not (str_eq row.token token)) s.sessions }))) =
      sym same ∙ sym (ap (λ (p : Result String Bool × World). p.1) ran) in
    (
      ok-injective (ap (λ (p : Result String Bool × World). p.0) ran) ∙ not-eq-false deleted had,
      ap (λ (w : World). has_token token w.sessions) kept ∙ has_token-delete token s.sessions,
      kept,
    )

guard-eq-false :
    (o : Option UserRow) (a b : String)
    → (is_none (map_user o) || not (str_eq a b)) ≡ false
    → (is_some o ≡ true) × (a ≡ b)
unfolding map_user
guard-eq-false none a b h = cc
guard-eq-false (some row) a b h = ground (arith, eq_iff a b)

-- Whoever is let in by a session token has a session that is not over, which belongs to the user that
-- the token names, and the account stands.
pub current_user-HasSession :
    (token : String) (r : IdentityServices) (s : World) {dto : CurrentUserDto} {t : World}
    → current_user token r s ≡ (ok dto, t)
    → (session : Session) × (join_live s.users
          (find (is_live token (r.now_at (s.ticks + 1))) s.sessions)
        ≡ some session)
      × (session.username ≡ dto.username)
      × (r.verify_token_at s.ticks token ≡ ok dto.username)
      × (is_some (find (is_user dto.username) s.users) ≡ true)
unfolding current_user verify_token find_by_token find_by_username
current_user-HasSession token r s h =
    let (username, named, h1) = try_outside-eq-ok _ _ _ h in
    let (session, live, h3) =
      some_or-eq-ok _ _ _ _ (query-eq-ok _ _ _ (via-outside-eq-ok _ _ _ _ _ h1)) in
    let (valid, h4) = raise_if-eq-ok _ _ _ _ (query-eq-ok _ _ _ h3) in
    let (_, _, _, h5) = bind-eq-ok _ _ _ _ h4 in
    let (_, _, _, h6) = bind-eq-ok _ _ _ _ h5 in
    let same = ap (λ (d : CurrentUserDto). d.username) (pure-eq-ok _ _ _ h6).0 in
    let (stands, own) =
      guard-eq-false (find (is_user username) s.users) session.username username valid in
    (
      session,
      live,
      own ∙ same,
      named ∙ ap ok same,
      ap (λ (name : String). is_some (find (is_user name) s.users)) (sym same) ∙ stands,
    )
