-- ===== src/Identity/Auth/Links.antt =====
-- What a magic link is good for.
use hegira.Base.{
  ℕ, ◌+◌, ◌≤◌, String, ◌≡◌, refl, sym, ap, ◌∙◌, Bool, false, ◌&&◌, Option, none, some, List, [],
  ◌∷◌, ◌++◌, is_none, find, any, update_where, arith, Result, ok,
}
use hegira.Identity.Store.{UserRow, SessionRow, World, IdentityServices}
use hegira.Identity.Sessions.{is_user}
use hegira.Identity.Users.{find_by_magic_link_token, find_by_token_column, clear_magic_link}
use hegira.Identity.TwoFactor.{is_equal, update_users}
use hegira.Identity.Auth.Login.{is_expired, verify_magic_link}
use hegira.Identity.Auth.Success.{query-eq-ok, some_or-eq-ok, raise_if-eq-ok, outside-eq-ok}
use hegira.Identity.Auth.Once.{statement_last}
use hegira.Identity.Auth.Guards.{map_user-eq-some}
use hegira.Identity.Auth.Begun.{create_session-begun, via-bind-eq-ok, via-pure-eq-ok}

unexpired :
    (expiry : Option ℕ) (now : ℕ)
    → is_expired expiry now ≡ false
    → (expires_at : ℕ) × (expiry ≡ some expires_at) × (now ≤ expires_at)
unexpired none now h = cc h
unexpired (some expires_at) now h = (expires_at, refl, ground (arith, h))

any-cleared :
    (username token : String) (rows : List UserRow)
    → any
        (λ row. is_user username row && is_equal row.magic_link_token token)
        (update_where
          (is_user username)
          (λ row. record row { magic_link_token = none; magic_link_expires_at = none })
          rows)
      ≡ false
unfolding any update_where is_user
any-cleared username token [] = refl
any-cleared username token (row ∷ rows) = ground (arith, any-cleared username token rows)

-- A magic link lets in only the account that has it, which stands, and only where the link has an
-- expiry that has not passed; the account does not have the link afterwards; and the token that is
-- given is the one of a new session of the account's name, the only session that was added.
pub verify_magic_link-IsTimely :
    (token : String) (r : IdentityServices) (s : World) {session : String} {t : World}
    → verify_magic_link token r s ≡ (ok session, t)
    → (row owner : UserRow) × (expires_at : ℕ) × (begun : SessionRow) × (find
          (λ row. is_equal row.magic_link_token token && is_none row.deleted_at)
          s.users
        ≡ some row)
      × (row.magic_link_expires_at ≡ some expires_at)
      × (r.now_at (s.ticks + 1) ≤ expires_at)
      × (any (λ other. is_user row.username other && is_equal other.magic_link_token token) t.users
          ≡ false)
      × (find (is_user row.username) t.users ≡ some owner)
      × (t.sessions ≡ s.sessions ++ begun ∷ [])
      × (begun.token ≡ session)
      × (begun.user_id ≡ owner.id)
unfolding verify_magic_link find_by_magic_link_token find_by_token_column clear_magic_link
    update_users
verify_magic_link-IsTimely token r s {t = t} h =
    let (user, found, h1) = some_or-eq-ok _ _ _ _ (query-eq-ok _ _ _ h) in
    let (timely, h2) = raise_if-eq-ok _ _ _ _ (outside-eq-ok _ _ _ _ h1) in
    let (_, s', ran, h3) = via-bind-eq-ok _ _ _ r _ h2 in
    let cleared = statement_last _ _ r _ ran in
    let (owner, begun, stands, sessions, of_token, of_owner, users) =
      create_session-begun user.username r s' (via-pure-eq-ok _ _ r s' h3) in
    let (row, is_row, same_name, _, same) = map_user-eq-some _ found in
    let (expires_at, expiry, order) =
      unexpired row.magic_link_expires_at (r.now_at (s.ticks + 1))
        (ap (λ (e : Option ℕ). is_expired e (r.now_at (s.ticks + 1))) same ∙ timely) in
    (
      row,
      owner,
      expires_at,
      begun,
      is_row,
      expiry,
      order,
      ap
            (λ (name : String).
              any (λ other. is_user name other && is_equal other.magic_link_token token) t.users)
            same_name
          ∙ ap
              (λ (us : List UserRow).
                any (λ other. is_user user.username other && is_equal other.magic_link_token token)
                  us)
              (users ∙ sym (ap (λ (p : Result String Bool × World). p.1.users) cleared))
          ∙ any-cleared user.username token s.users,
      ap (λ (name : String). find (is_user name) t.users) same_name
          ∙ ap (find (is_user user.username)) users
          ∙ stands,
      sessions
          ∙ ap (λ (rows : List SessionRow). rows ++ begun ∷ [])
              (sym (ap (λ (p : Result String Bool × World). p.1.sessions) cleared)),
      of_token,
      of_owner,
    )
