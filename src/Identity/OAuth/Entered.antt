-- ===== src/Identity/OAuth/Entered.antt =====
-- Whom a callback of OAuth lets in.
use hegira.Base.{
  ℕ, String, ◌≡◌, refl, sym, ap, ◌∙◌, Bool, true, false, Option, none, some, List, [], ◌∷◌, is_some,
  find, arith, Result, ok,
}
use hegira.Base.Actions.{◌>>=◌, pure, bind-eq-ok}
use hegira.Identity.Store.{
  UserRow, OAuthFlow, login, link, OAuthState, OAuthConnection, ExternalOAuthUser,
  OAuthProviderSettings, World, IdentityServices, Service as Action,
}
use hegira.Identity.Auth.Login.{LoginResultDto}
use hegira.Identity.Auth.Begun.{HasBegunFor, insert-eq-ok}
use hegira.Identity.OAuth.Guards.{callback-IsGuarded}
use hegira.Identity.Access.{attempt, insert_audit}
use hegira.Identity.Auth.{create_token, token_expiry}
use hegira.Identity.Auth.Success.{try_outside-eq-ok}
use hegira.Identity.Auth.Login.{authenticated}
use hegira.Identity.OAuth.Service.{create_login_result, record_oauth}
use hegira.Identity.Store.{SessionRow, outside, answer, statement}
use hegira.Identity.Errors.{ApplicationError}
use hegira.Identity.Sessions.{is_user}
use hegira.Base.{◌++◌}
use hegira.Identity.Auth.Success.{
  statement-eq-ok, query-eq-ok, some_or-eq-ok, raise_if-eq-ok, outside-eq-ok, pure-eq-ok,
}
use hegira.Identity.Auth.Guards.{has_second_factor}
use hegira.Identity.TwoFactor.{credential_by_username, set_login_token, update_users}
use hegira.Identity.OAuth.{is_identity, name_of, standing_owner, username_for_connection}
use hegira.Identity.OAuth.Service.{
  OAuthCallbackDto, normalize_provider, link_account, await_signup, enter, sign_in, answer_flow,
  callback,
}

-- Whether the answer lets somebody in.
abbrev pub has_session : Option LoginResultDto → Bool
has_session none = false
has_session (some result) = is_some result.token

-- The user of an identity of a provider.
abbrev pub owner_of : String → String → World → Option String
owner_of provider provider_user_id s =
    name_of
      (standing_owner s.users (find (is_identity provider provider_user_id) s.oauth_connections))

bind_pure-eq-ok :
    {A B : Type 0} (m : Action A) (f : A → B) (r : IdentityServices) (s : World) {b : B} {t : World}
    → (m >>= λ a. pure (f a)) r s ≡ (ok b, t)
    → (a : A) × (f a ≡ b)
bind_pure-eq-ok m f r s h = let (a, _, _, h1) = bind-eq-ok _ _ r s h in (a, (pure-eq-ok _ _ _ h1).0)

-- A session that a sign-in by way of a provider begins is one of the user of the name.
create_login_result-begun :
    (username : String) (r : IdentityServices) (s : World) {result : LoginResultDto} {t : World}
    → create_login_result username r s ≡ (ok result, t)
    → (token : String) × (result ≡ authenticated token) × HasBegunFor username token s t
unfolding create_login_result create_token token_expiry outside ◌>>=◌
create_login_result-begun username r s h =
    let (made, _, h1) = try_outside-eq-ok _ _ s h in
    let (s', (owner, session, found, sessions, of_token, of_owner, users), h2) =
      insert-eq-ok made username _ _ (λ _. pure (authenticated made)) r _ h1 in
    let (same, same_world) = pure-eq-ok (authenticated made) r s' h2 in
    (
      made,
      sym same,
      (
        owner,
        session,
        found,
        sym (ap (λ (w : World). w.sessions) same_world) ∙ sessions,
        of_token,
        of_owner,
        sym (ap (λ (w : World). w.users) same_world) ∙ users,
      ),
    )

-- An entry of the audit log leaves the sessions alone.
record_oauth-sessions :
    (actor action : String) (provider : Option String) (r : IdentityServices) (s : World)
    → (record_oauth actor action provider r s).1.sessions ≡ s.sessions
unfolding record_oauth attempt insert_audit ◌>>=◌ statement answer
record_oauth-sessions actor action provider r s = ground arith

-- The answer has the token of a new session, which is the only one that was added and belongs to the
-- user of the name, who stands and has no second factor.
abbrev pub HasEntered : String → OAuthCallbackDto → World → World → Type 0
HasEntered name dto s t =
    (token : String) × (owner : UserRow) × (session : SessionRow) × (dto.login
      ≡ some (authenticated token))
    × (find (is_user name) s.users ≡ some owner)
    × (t.sessions ≡ s.sessions ++ session ∷ [])
    × (session.token ≡ token)
    × (session.user_id ≡ owner.id)
    × (has_second_factor name s.users ≡ false)

enter-HasEntered :
    (provider name : String) (enabled : Bool) (r : IdentityServices) (s : World)
    {dto : OAuthCallbackDto} {t : World}
    → enter provider name enabled r s ≡ (ok dto, t)
    → has_session dto.login ≡ true
    → has_second_factor name s.users ≡ enabled
    → HasEntered name dto s t
unfolding enter set_login_token update_users
enter-HasEntered provider name true r s h let_in factor =
    let (_, _, _, h1) = statement-eq-ok _ _ _ (outside-eq-ok _ _ _ _ (outside-eq-ok _ _ _ _ h)) in
    let (_, h2) = raise_if-eq-ok _ _ _ _ h1 in
    let (_, same) = bind_pure-eq-ok _ _ r _ h2 in
    cc (ap (λ (d : OAuthCallbackDto). has_session d.login) same, let_in)
enter-HasEntered provider name false r s h let_in factor =
    let (result, s1, ran, h1) = bind-eq-ok _ _ r s h in
    let (_, s2, noted, h2) =
      bind-eq-ok (record_oauth name "oauth.login.succeeded" (some provider)) _ r s1 h1 in
    let (same, same_world) = pure-eq-ok _ r s2 h2 in
    let (token, is_result, (owner, session, found, sessions, of_token, of_owner, _)) =
      create_login_result-begun name r s ran in
    (
      token,
      owner,
      session,
      ap (λ (d : OAuthCallbackDto). d.login) (sym same) ∙ ap some is_result,
      found,
      ap (λ (w : World). w.sessions) (sym same_world)
          ∙ ap (λ (p : Result ApplicationError (Unit {0}) × World). p.1.sessions) (sym noted)
          ∙ record_oauth-sessions name "oauth.login.succeeded" (some provider) r s1
          ∙ sessions,
      of_token,
      of_owner,
      factor,
    )

sign_in-HasEntered :
    (provider : String) (external : ExternalOAuthUser) (owner : Option String)
    (r : IdentityServices) (s : World) {dto : OAuthCallbackDto} {t : World}
    → sign_in provider external owner r s ≡ (ok dto, t)
    → has_session dto.login ≡ true
    → (name : String) × (owner ≡ some name) × HasEntered name dto s t
unfolding sign_in await_signup credential_by_username
sign_in-HasEntered provider external none r s h let_in =
    let (_, _, _, h1) = bind-eq-ok _ _ r _ (outside-eq-ok _ _ _ _ (outside-eq-ok _ _ _ _ h)) in
    let (_, same) = bind_pure-eq-ok _ _ r _ h1 in
    cc (ap (λ (d : OAuthCallbackDto). has_session d.login) same, let_in)
sign_in-HasEntered provider external (some name) r s h let_in =
    (name, refl, enter-HasEntered provider name _ r _ (query-eq-ok _ _ _ h) let_in refl)

answer_flow-HasEntered :
    (provider : String) (stored : OAuthState) (external : ExternalOAuthUser) (flow : OAuthFlow)
    (r : IdentityServices) (s : World) {dto : OAuthCallbackDto} {t : World}
    → answer_flow provider stored external flow r s ≡ (ok dto, t)
    → has_session dto.login ≡ true
    → (name : String) × (owner_of provider external.provider_user_id s ≡ some name)
      × HasEntered name dto s t
unfolding answer_flow link_account username_for_connection
answer_flow-HasEntered provider stored external link r s h let_in =
    let (_, _, h1) = some_or-eq-ok _ _ _ _ h in
    let (_, _, _, h2) = bind-eq-ok _ _ r _ h1 in
    let (_, same) = bind_pure-eq-ok _ _ r _ h2 in
    cc (ap (λ (d : OAuthCallbackDto). has_session d.login) same, let_in)
answer_flow-HasEntered provider stored external login r s h let_in =
    sign_in-HasEntered provider external _ r _ (query-eq-ok _ _ _ h) let_in

-- A callback that lets somebody in lets in only the user of the identity that the provider vouched
-- for, whose account stands and has no second factor: the answer has the token of the only session
-- that was added, and this session belongs to that user.
pub callback-session :
    (text code state : String) (r : IdentityServices) (s : World) {dto : OAuthCallbackDto}
    {t : World}
    → callback text code state r s ≡ (ok dto, t)
    → has_session dto.login ≡ true
    → (provider : String) × (settings : OAuthProviderSettings) × (external : ExternalOAuthUser)
      × (name : String) × (tick : ℕ) × (normalize_provider text ≡ ok provider)
      × (r.fetch_user_at tick provider settings code ≡ ok external)
      × (owner_of provider external.provider_user_id s ≡ some name)
      × HasEntered name dto s t
callback-session text code state r s {dto = dto} {t = t} h let_in =
    let (
      provider, settings, stored, external, s', normal, _, _, _, vouched, _, users, rows, kept, h1,
    ) =
      callback-IsGuarded text code state (r.now_at s.ticks) r s h (omega arith) in
    let (name, owner, (token, user, session, answered, found, sessions, of_token, of_user, plain)) =
      answer_flow-HasEntered provider stored external _ r _ h1 let_in in
    (
      provider,
      settings,
      external,
      name,
      s'.ticks,
      normal,
      vouched,
      ap
            (λ (us : List UserRow). name_of (
              standing_owner us
                (find (is_identity provider external.provider_user_id) s.oauth_connections)))
            (sym users)
          ∙ ap
              (λ (cs : List OAuthConnection). name_of (
                standing_owner s'.users (find (is_identity provider external.provider_user_id) cs)))
              (sym rows)
          ∙ owner,
      (
        token,
        user,
        session,
        answered,
        ap (find (is_user name)) (sym users) ∙ found,
        sessions ∙ ap (λ (old : List SessionRow). old ++ session ∷ []) kept,
        of_token,
        of_user,
        ap (has_second_factor name) (sym users) ∙ plain,
      ),
    )
