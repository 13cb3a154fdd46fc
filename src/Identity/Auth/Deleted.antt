-- ===== src/Identity/Auth/Deleted.antt =====
-- What the deletion of one's own account does.
use hegira.Base.{
  String, ◌≡◌, refl, sym, ap, ◌∙◌, true, false, some, List, [], ◌∷◌, find, ◌⊎◌, inl, inr, Result,
  ok,
}
use hegira.Base.Keeps.{Keeps, Keeps-bind, Keeps-pure, Keeps-raise_if}
use hegira.Identity.Errors.{ApplicationError}
use hegira.Identity.Validation.{is_protected_admin_username}
use hegira.Identity.Store.{
  UserRow, RoleRow, UserRole, RolePermission, OAuthConnection, PendingOAuthSignup, World,
  IdentityServices,
}
use hegira.Identity.Sessions
use hegira.Identity.Sessions.{Session, is_user}
use hegira.Identity.Users.{User, find_by_username}
use hegira.Identity.Roles.{user_permissions}
use hegira.Identity.Auth.{
  CurrentUserDto, via, verify_token, verify_hash, try_outside, next_session_expires_at,
  refresh_session_if_needed, current_user,
}
use hegira.Identity.Auth.Accounts.{user_of, delete_sessions, delete_account}
use hegira.Identity.Auth.Success.{query-eq-ok, raise_if-last}
use hegira.Identity.Auth.Guards.{map_user-eq-some, not-eq-false, some_or_last, try_outside_last}
use hegira.Identity.Frame.{HasAccounts, HasAccountsOf, frame_rules}
use hegira.Identity.Deletion.{is_ok, proceed, IsDone, delete_then}

module _ {us : List UserRow} {ms : List UserRole} {rs : List RoleRow} {gs : List RolePermission}
    {cs : List OAuthConnection} {ss : List PendingOAuthSignup} where
  refresh-Frame :
      (session : Session)
      → Keeps (HasAccounts us ms rs gs cs ss) (refresh_session_if_needed session)
  unfolding refresh_session_if_needed next_session_expires_at Sessions.refresh
  refresh-Frame session = search frame_rules depth 24

  current_user-Frame : (token : String) → Keeps (HasAccounts us ms rs gs cs ss) (current_user token)
  unfolding current_user verify_token try_outside Sessions.find_by_token find_by_username
      user_permissions
  current_user-Frame token = search (frame_rules, refresh-Frame) depth 30

  user_of-Frame :
      (current : CurrentUserDto) → Keeps (HasAccounts us ms rs gs cs ss) (user_of current)
  unfolding user_of find_by_username
  user_of-Frame current = search frame_rules depth 16

  verify_hash-Frame :
      (password hash : String) → Keeps (HasAccounts us ms rs gs cs ss) (verify_hash password hash)
  unfolding verify_hash try_outside
  verify_hash-Frame password hash = search frame_rules depth 16

  list_sessions-Frame :
      (username : String)
      → Keeps (HasAccounts us ms rs gs cs ss) (via (Sessions.list_for_user username))
  unfolding Sessions.list_for_user
  list_sessions-Frame username = search frame_rules depth 16

  delete_sessions-Frame :
      (username : String) (sessions : List Session)
      → Keeps (HasAccounts us ms rs gs cs ss) (delete_sessions username sessions)
  unfolding delete_sessions Sessions.delete_for_user
  delete_sessions-Frame username [] = Keeps-pure tt
  delete_sessions-Frame username (session ∷ sessions) =
      Keeps-bind _ _ (search frame_rules depth 16) λ _. delete_sessions-Frame username sessions

user_of-row :
    (current : CurrentUserDto) (r : IdentityServices) (s : World) {user : User} {t : World}
    → user_of current r s ≡ (ok user, t)
    → (row : UserRow) × (find (is_user current.username) s.users ≡ some row)
      × (row.password_hash ≡ user.password_hash)
unfolding user_of find_by_username
user_of-row current r s h =
    let (user', found, same) = some_or_last _ _ _ _ (query-eq-ok _ _ _ h) in
    let (row, is_row, _, same_hash, _) = map_user-eq-some _ found in
    (row, is_row, same_hash ∙ ap (λ (x : User). x.password_hash) same)

-- Whatever the deletion of one's own account answers, and wherever it fails: either it has failed and
-- every account, role, grant and OAuth connection is as before, or the token was that of a user who
-- is no protected administrator and whose password was given, the rows of this user's name that stood
-- are marked as deleted, no account of the name stands, and every other row of these tables is as
-- before.
pub delete_account-IsGuarded :
    (token password : String) (r : IdentityServices) (s : World)
    {o : Result ApplicationError (Unit {0})} {t : World}
    → delete_account token password r s ≡ (o, t)
    → ((is_ok o ≡ false) × HasAccountsOf s t)
      ⊎ ((current : CurrentUserDto) × (s' : World) × (row : UserRow) × (current_user token r s
            ≡ (ok current, s'))
          × (is_protected_admin_username current.username ≡ false)
          × (find (is_user current.username) s.users ≡ some row)
          × (r.verify_hash password row.password_hash ≡ ok true)
          × IsDone current.username s t)
unfolding delete_account verify_hash
delete_account-IsGuarded token password r s h =
    proceed s _ _ r s (current_user-Frame token) (refl, refl, refl, refl, refl, refl) h
      (λ wrong same. inl (wrong, same))
      λ current s1 before is_current h1.
        proceed s _ _ r s1 (Keeps-raise_if _ _) before h1 (λ wrong same. inl (wrong, same))
          λ _ s2 before unprotected h2.
            proceed s _ _ r s2 (user_of-Frame current) before h2 (λ wrong same. inl (wrong, same))
              λ user s3 before' is_user_of h3.
                proceed s _ _ r s3 (verify_hash-Frame password user.password_hash) before' h3
                  (λ wrong same. inl (wrong, same))
                  λ verified s4 before4 checked h4.
                    proceed s _ _ r s4 (Keeps-raise_if _ _) before4 h4
                      (λ wrong same. inl (wrong, same))
                      λ _ s5 before5 valid h5.
                        proceed s _ _ r s5 (list_sessions-Frame current.username) before5 h5
                          (λ wrong same. inl (wrong, same))
                          λ sessions s6 before6 _ h6.
                            let (row, is_row, same_hash) = user_of-row current r s2 is_user_of in
                            delete_then current.username _ s r s6
                              (λ w deleted.
                                Keeps-bind _ _ (Keeps-raise_if _ _)
                                  λ _. delete_sessions-Frame current.username sessions)
                              before6 h6 (λ wrong same. inl (wrong, same))
                              λ done. inr (
                                current,
                                s1,
                                row,
                                is_current,
                                (raise_if-last _ _ _ _ unprotected).0,
                                ap (find (is_user current.username)) (sym before.0) ∙ is_row,
                                ap (r.verify_hash password) same_hash
                                    ∙ try_outside_last _ _ _ checked
                                    ∙ ap ok (not-eq-false verified (raise_if-last _ _ _ _ valid).0),
                                done,
                              )
