-- ===== src/Identity/OAuth/Guards.antt =====
-- What a success of the OAuth service means.
use hegira.Base.{
  ℕ, ◌≤◌, String, ◌≡◌, refl, sym, ap, ◌∙◌, false, not, Option, some, List, [], ◌∷◌, find, any,
  retain, arith, eq_iff, Result, ok, err, ok-injective,
}
use hegira.Base.Actions.{bind-eq-ok}
use hegira.Identity.Errors.{ApplicationResult}
use hegira.Identity.Store.{
  OAuthState, ExternalOAuthUser, OAuthProviderSettings, World, IdentityServices,
}
use hegira.Identity.Auth.Once.{statement_last}
use hegira.Identity.Auth.Success.{
  tick, statement-eq-ok, some_or-eq-ok, raise_if-eq-ok, outside-eq-ok, lift-eq-ok, gets-eq-ok,
  raise-not-ok,
}
use hegira.Identity.Auth.Guards.{not-eq-false}
use hegira.Identity.OAuth.{is_current, take_state}
use hegira.Identity.OAuth.Service.{
  OAuthCallbackDto, normalize_provider, provider_settings, answer_flow, exchanged, callback,
}

any-taken :
    (state : String) (now later : ℕ) (rows : List OAuthState)
    → now ≤ later
    → any (is_current state later) (retain (λ row. not (is_current state now row)) rows) ≡ false
unfolding any retain is_current
any-taken state now later [] h = refl
any-taken state now later (row ∷ rows) h = ground (arith, any-taken state now later rows)

-- A state that was taken is taken by nobody at any later time, and what was taken was the first row of
-- this state that was not over.
pub take_state-once :
    (state : String) (now later : ℕ) (r : IdentityServices) (s : World) {taken : Option OAuthState}
    {t : World}
    → take_state state now r s ≡ (ok taken, t)
    → now ≤ later
    → (taken ≡ find (is_current state now) s.oauth_states)
      × (any (is_current state later) t.oauth_states ≡ false)
unfolding take_state
take_state-once state now later r s h order =
    let ran = statement_last _ _ r s h in
    (
      sym (ok-injective (ap (λ (p : Result String (Option OAuthState) × World). p.0) ran)),
      ap (λ (rows : List OAuthState). any (is_current state later) rows)
            (sym (ap (λ (p : Result String (Option OAuthState) × World). p.1.oauth_states) ran))
          ∙ any-taken state now later s.oauth_states order,
    )

exchanged-eq-ok :
    (provider : String) (stored : OAuthState) (answer : ApplicationResult ExternalOAuthUser)
    (r : IdentityServices) (s : World) {dto : OAuthCallbackDto} {t : World}
    → exchanged provider stored answer r s ≡ (ok dto, t)
    → (external : ExternalOAuthUser) × (answer ≡ ok external)
      × (answer_flow provider stored external stored.flow r s ≡ (ok dto, t))
unfolding exchanged
exchanged-eq-ok provider stored (ok external) r s h = (external, refl, h)
exchanged-eq-ok provider stored (err error) r s h =
    let (_, _, _, h1) = bind-eq-ok _ _ r s h in absurd (raise-not-ok error r _ h1)

-- A callback that is answered belongs to a state that was not over, for the provider that the
-- callback is of; the state is of no use at that time or later; and the provider vouched for a user.
pub callback-IsGuarded :
    (text code state : String) (later : ℕ) (r : IdentityServices) (s : World)
    {dto : OAuthCallbackDto} {t : World}
    → callback text code state r s ≡ (ok dto, t)
    → r.now_at s.ticks ≤ later
    → (provider : String) × (settings : OAuthProviderSettings) × (stored : OAuthState)
      × (external : ExternalOAuthUser) × (s' : World) × (normalize_provider text ≡ ok provider)
      × (provider_settings provider r.oauth ≡ ok settings)
      × (find (is_current state (r.now_at s.ticks)) s.oauth_states ≡ some stored)
      × (stored.provider ≡ provider)
      × (r.fetch_user_at s'.ticks provider settings code ≡ ok external)
      × (any (is_current state later) s'.oauth_states ≡ false)
      × (s'.users ≡ s.users)
      × (s'.oauth_connections ≡ s.oauth_connections)
      × (s'.sessions ≡ s.sessions)
      × (answer_flow provider stored external stored.flow r (tick s') ≡ (ok dto, t))
unfolding callback take_state
callback-IsGuarded text code state later r s h order =
    let (provider, normal, h1) = lift-eq-ok _ _ _ _ h in
    let (settings, configured, h2) = lift-eq-ok _ _ _ _ (gets-eq-ok _ _ _ _ h1) in
    let (_, h3) = raise_if-eq-ok _ _ _ _ h2 in
    let (taken, s', ran, h4) = statement-eq-ok _ _ _ (outside-eq-ok _ _ _ _ h3) in
    let (stored, is_stored, h5) = some_or-eq-ok _ _ _ _ h4 in
    let (same, h6) = raise_if-eq-ok _ _ _ _ h5 in
    let (external, vouched, h7) = exchanged-eq-ok _ _ _ _ _ (outside-eq-ok _ _ _ _ h6) in
    (
      provider,
      settings,
      stored,
      external,
      s',
      normal,
      configured,
      ok-injective (ap (λ (p : Result String (Option OAuthState) × World). p.0) ran) ∙ is_stored,
      (eq_iff stored.provider provider).0 (not-eq-false _ same),
      vouched,
      ap (λ (rows : List OAuthState). any (is_current state later) rows)
            (sym (ap (λ (p : Result String (Option OAuthState) × World). p.1.oauth_states) ran))
          ∙ any-taken state (r.now_at s.ticks) later s.oauth_states order,
      sym (ap (λ (p : Result String (Option OAuthState) × World). p.1.users) ran),
      sym (ap (λ (p : Result String (Option OAuthState) × World). p.1.oauth_connections) ran),
      sym (ap (λ (p : Result String (Option OAuthState) × World). p.1.sessions) ran),
      h7,
    )
