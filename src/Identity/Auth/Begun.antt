-- ===== src/Identity/Auth/Begun.antt =====
-- The session that a sign-in begins, and whose it is.
use hegira.Base.{
  ℕ, String, ◌≡◌, refl, sym, ap, ◌∙◌, Bool, true, false, Option, none, some, [], ◌∷◌, ◌++◌, find,
  any, if◌then◌else◌, Result, ok, err,
}
use hegira.Base.Actions.{◌>>=◌, pure, raise, after}
use hegira.Identity.Errors.{DomainError, ApplicationError}
use hegira.Identity.Store.{
  UserRow, SessionRow, World, IdentityServices, Repository, Service, outside,
}
use hegira.Identity.Sessions
use hegira.Identity.Sessions.{is_user, clashes, add_session, insert_for}
use hegira.Identity.Auth.{
  from_repository, via, create_token, token_expiry, next_session_expires_at, create_session,
}
use hegira.Identity.Auth.Once.{statement_last}
use hegira.Identity.Auth.Success.{tick, try_outside-eq-ok, via-outside-eq-ok, pure-eq-ok}

-- A session of a token was added for the user of a name, and the accounts are as before.
abbrev pub HasBegunFor : String → String → World → World → Type 0
HasBegunFor username token s t =
    (owner : UserRow) × (session : SessionRow) × (find (is_user username) s.users ≡ some owner)
    × (t.sessions ≡ s.sessions ++ session ∷ [])
    × (session.token ≡ token)
    × (session.user_id ≡ owner.id)
    × (t.users ≡ s.users)

module _ {A B C : Type 0} where
  chain-eq-ok :
      (p : Result DomainError A × World) (g : A → Repository B) (k : B → Service C)
      (r : IdentityServices) {c : C} {t : World}
      → after (from_repository (after p.0 g r p.1)).0 k r (from_repository (after p.0 g r p.1)).1
        ≡ (ok c, t)
      → (a : A) × (s' : World) × (p ≡ (ok a, s')) × ((via (g a) >>= k) r s' ≡ (ok c, t))
  unfolding via ◌>>=◌
  chain-eq-ok (ok a, s') g k r h = (a, s', refl, h)
  chain-eq-ok (err e, s') g k r h = cc (ap (λ (p : Result ApplicationError C × World). p.0) h)

  -- A method of a repository that is a chain.
  pub via-bind-eq-ok :
      (m : Repository A) (g : A → Repository B) (k : B → Service C) (r : IdentityServices)
      (s : World) {c : C} {t : World}
      → (via (m >>= g) >>= k) r s ≡ (ok c, t)
      → (a : A) × (s' : World) × (m r s ≡ (ok a, s')) × ((via (g a) >>= k) r s' ≡ (ok c, t))
  unfolding via ◌>>=◌
  via-bind-eq-ok m g k r s h = chain-eq-ok (m r s) g k r h

pub via-pure-eq-ok :
    {A C : Type 0} (a : A) (k : A → Service C) (r : IdentityServices) (s : World) {c : C}
    {t : World}
    → (via (pure a) >>= k) r s ≡ (ok c, t)
    → k a r s ≡ (ok c, t)
unfolding via ◌>>=◌
via-pure-eq-ok a k r s h = h

inserted-eq-ok :
    {C : Type 0} (inserted : Bool) (e : DomainError) (k : Unit {0} → Service C)
    (r : IdentityServices) (s : World) {c : C} {t : World}
    → (via (if inserted then pure tt else raise e) >>= k) r s ≡ (ok c, t)
    → (inserted ≡ true) × (k tt r s ≡ (ok c, t))
unfolding via ◌>>=◌
inserted-eq-ok true e k r s h = (refl, h)
inserted-eq-ok {C = C} false e k r s h = cc (ap (λ (p : Result ApplicationError C × World). p.0) h)

add_session-eq-ok :
    (clash : Bool) (e : String) (row : SessionRow) (s : World) {b : Bool} {t : World}
    → ◌≡◌ {A = Result String Bool × World}
        (if clash then (err e, s) else (ok true, record s { sessions = s.sessions ++ row ∷ [] }))
        (ok b, t)
    → (t.sessions ≡ s.sessions ++ row ∷ []) × (t.users ≡ s.users)
add_session-eq-ok true e row s h = cc (ap (λ (p : Result String Bool × World). p.0) h)
add_session-eq-ok false e row s h = (
  sym (ap (λ (p : Result String Bool × World). p.1.sessions) h),
  sym (ap (λ (p : Result String Bool × World). p.1.users) h),
)

insert_for-eq-ok :
    (o : Option UserRow) (pid token username : String) (created_at expires_at max_expires_at : ℕ)
    (s : World) {t : World}
    → find (is_user username) s.users ≡ o
    → insert_for o pid token created_at expires_at max_expires_at s ≡ (ok true, t)
    → HasBegunFor username token s t
unfolding insert_for add_session
insert_for-eq-ok none pid token username created_at expires_at max_expires_at s found h =
    cc (ap (λ (p : Result String Bool × World). p.0) h)
insert_for-eq-ok (some user) pid token username created_at expires_at max_expires_at s found h =
    let session : SessionRow = record {
      pid = pid;
      token = token;
      user_id = user.id;
      created_at = created_at;
      expires_at = expires_at;
      max_expires_at = max_expires_at;
    } in
    let (sessions, users) = add_session-eq-ok (any (clashes session) s.sessions) _ session s h in
    (user, session, found, sessions, refl, refl, users)

-- The insertion of a session that succeeds.
pub insert-eq-ok :
    {C : Type 0} (token username : String) (expires_at max_expires_at : ℕ)
    (k : Unit {0} → Service C) (r : IdentityServices) (s : World) {c : C} {t : World}
    → (via (Sessions.insert token username expires_at max_expires_at) >>= k) r s ≡ (ok c, t)
    → (s' : World) × HasBegunFor username token s s' × (k tt r s' ≡ (ok c, t))
unfolding Sessions.insert
insert-eq-ok token username expires_at max_expires_at k r s h =
    let h1 = via-outside-eq-ok _ _ k r _ (via-outside-eq-ok _ _ k r s h) in
    let (inserted, s', ran, h2) = via-bind-eq-ok _ _ k r _ h1 in
    let (done, h3) = inserted-eq-ok inserted _ k r s' h2 in
    let rows = statement_last _ _ r _ ran in
    (
      s',
      insert_for-eq-ok _ _ token username _ _ _ (tick (tick (tick s))) refl
          (rows ∙ ap (λ (b : Bool). (ok b, s')) done),
      h3,
    )

-- A session that was created is one of the user of the name.
pub create_session-begun :
    (username : String) (r : IdentityServices) (s : World) {token : String} {t : World}
    → create_session username r s ≡ (ok token, t)
    → HasBegunFor username token s t
unfolding create_session create_token token_expiry next_session_expires_at outside ◌>>=◌
create_session-begun username r s {token = token} {t = t} h =
    let (made, _, h1) = try_outside-eq-ok _ _ s h in
    let (s', (owner, session, found, sessions, of_token, of_owner, users), h2) =
      insert-eq-ok made username _ _ (λ _. pure made) r _ h1 in
    let (same, same_world) = pure-eq-ok made r s' h2 in
    (
      owner,
      session,
      found,
      sym (ap (λ (w : World). w.sessions) same_world) ∙ sessions,
      of_token ∙ same,
      of_owner,
      sym (ap (λ (w : World). w.users) same_world) ∙ users,
    )
