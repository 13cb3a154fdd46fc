-- ===== src/Identity/OAuth/Signup.antt =====
-- What a signup by way of a provider leaves behind.
use hegira.Base.{
  ℕ, ◌+◌, ◌≤◌, String, ◌≡◌, refl, sym, ap, ◌∙◌, Bool, true, false, not, ◌&&◌, ◌||◌, Option, none,
  some, List, [], ◌∷◌, ◌++◌, ◌==◌, is_none, find, any, retain, arith, eq_iff, if◌then◌else◌, Result,
  ok, err, ok-injective,
}
use hegira.Base.Actions.{bind-eq-ok, transaction}
use hegira.Identity.Store.{UserRow, OAuthConnection, PendingOAuthSignup, World, IdentityServices}
use hegira.Identity.Auth.Once.{statement_last}
use hegira.Identity.Auth.Success.{outside-eq-ok, pure-eq-ok}
use hegira.Identity.Auth.Taken.{settle-eq-ok, begin-eq-ok, write-eq-ok}
use hegira.Identity.Frame.{kept, finish_publish-Frame}
use hegira.Identity.OAuth.{
  is_identity, name_of, standing_owner, is_pending, CompleteOAuthSignup, external_user,
  insert_external, insert_connection, finish_signup, complete_signup,
}
use hegira.Identity.OAuth.Entered.{owner_of}

if-eq-ok :
    {A : Type 0} (c : Bool) (e : String) (a : A) (s1 s2 : World) {b : A} {t : World}
    → ◌≡◌ {A = Result String A × World} (if c then (err e, s1) else (ok a, s2)) (ok b, t)
    → (c ≡ false) × (a ≡ b) × (s2 ≡ t)
if-eq-ok {A = A} true e a s1 s2 h = cc (ap (λ (p : Result String A × World). p.0) h)
if-eq-ok {A = A} false e a s1 s2 h = (
  refl,
  ok-injective (ap (λ (p : Result String A × World). p.0) h),
  ap (λ (p : Result String A × World). p.1) h,
)

find-append :
    {A : Type 0} (p : A → Bool) (xs : List A) (y : A)
    → any p xs ≡ false
    → p y ≡ true
    → find p (xs ++ y ∷ []) ≡ some y
unfolding any find
find-append p [] y h k = ground (arith, k)
find-append p (x ∷ xs) y h k = ground (arith, h, k, find-append p xs y)

any-weaken :
    {A : Type 0} (p q : A → Bool) (xs : List A)
    → any p xs ≡ false
    → any (λ x. p x && q x) xs ≡ false
unfolding any
any-weaken p q [] h = refl
any-weaken p q (x ∷ xs) h = ground (arith, h, any-weaken p q xs)

any-or :
    {A : Type 0} (p q : A → Bool) (xs : List A)
    → any (λ x. p x || q x) xs ≡ false
    → any p xs ≡ false
unfolding any
any-or p q [] h = refl
any-or p q (x ∷ xs) h = ground (arith, h, any-or p q xs)

any-taken :
    (token : String) (now later : ℕ) (rows : List PendingOAuthSignup)
    → now ≤ later
    → any (is_pending token later) (retain (λ row. not (is_pending token now row)) rows) ≡ false
unfolding any retain is_pending
any-taken token now later [] h = refl
any-taken token now later (row ∷ rows) h = ground (arith, any-taken token now later rows)

-- What is in the tables once a signup is done.
abbrev pub HasSignedUp : CompleteOAuthSignup → PendingOAuthSignup → World → World → Type 0
HasSignedUp command pending s t =
    (user : UserRow) × (row : OAuthConnection) × (user.username ≡ command.username)
    × (user.external_only ≡ true)
    × (user.deleted_at ≡ none)
    × (user.id ≡ s.next_id)
    × (row.user_id ≡ user.id)
    × (is_identity pending.provider pending.provider_user_id row ≡ true)
    × (any (is_identity pending.provider pending.provider_user_id) s.oauth_connections ≡ false)
    × (t.users ≡ s.users ++ user ∷ [])
    × (t.oauth_connections ≡ s.oauth_connections ++ row ∷ [])
    × (t.oauth_signups ≡ s.oauth_signups)

finish_signup-rows :
    (command : CompleteOAuthSignup) (found : Option PendingOAuthSignup) (r : IdentityServices)
    (s : World) {t : World}
    → finish_signup command found r s ≡ (ok true, t)
    → (pending : PendingOAuthSignup) × (found ≡ some pending) × HasSignedUp command pending s t
unfolding finish_signup insert_external insert_connection
finish_signup-rows command none r s h = cc (pure-eq-ok _ r s h).0
finish_signup-rows command (some pending) r s h =
    let (user, s1, ran1, h1) =
      bind-eq-ok _ _ r _ (outside-eq-ok _ _ r _ (outside-eq-ok _ _ r s h)) in
    let (_, is_user, same1) = if-eq-ok _ _ _ _ _ (statement_last _ _ r _ ran1) in
    let (_, s2, ran2, h2) = bind-eq-ok _ _ r _ (outside-eq-ok _ _ r s1 h1) in
    let (free, _, same2) = if-eq-ok _ _ _ _ _ (statement_last _ _ r _ ran2) in
    let same =
      kept _ (finish_publish-Frame command.publish_search _ _ _ _ _ _) r s2
        (refl, refl, refl, refl, refl, refl) h2 in
    let none_before =
      any-or (is_identity pending.provider pending.provider_user_id) _ s1.oauth_connections free in
    (
      pending,
      refl,
      (
        external_user s.next_id (r.uuid_at s.ticks) (r.now_at (s.ticks + 1)) command,
        record {
          user_id = user.id;
          provider = pending.provider;
          provider_user_id = pending.provider_user_id;
          email = pending.email;
          created_at = r.now_at s1.ticks;
        },
        refl,
        refl,
        refl,
        refl,
        ap (λ (u : UserRow). u.id) (sym is_user),
        ground (
          arith,
          eq_iff pending.provider pending.provider,
          eq_iff pending.provider_user_id pending.provider_user_id,
        ),
        ap
              (λ (rows : List OAuthConnection).
                any (is_identity pending.provider pending.provider_user_id) rows)
              (ap (λ (w : World). w.oauth_connections) same1)
            ∙ none_before,
        same.0 ∙ ap (λ (w : World). w.users) (sym same2) ∙ ap (λ (w : World). w.users) (sym same1),
        same.4
            ∙ ap (λ (w : World). w.oauth_connections) (sym same2)
            ∙ ap
                (λ (rows : List OAuthConnection).
                  rows
                  ++ record {
                    user_id = user.id;
                    provider = pending.provider;
                    provider_user_id = pending.provider_user_id;
                    email = pending.email;
                    created_at = r.now_at s1.ticks;
                  }
                    ∷ [])
                (ap (λ (w : World). w.oauth_connections) (sym same1)),
        same.5
            ∙ ap (λ (w : World). w.oauth_signups) (sym same2)
            ∙ ap (λ (w : World). w.oauth_signups) (sym same1),
      ),
    )

-- A signup that is completed was pending under its token and not over, and the token is of no use at
-- that time or later. Where no user has the next id, the identity belongs to a new user of the name
-- asked for, who has no password.
pub complete_signup-once :
    (command : CompleteOAuthSignup) (later : ℕ) (r : IdentityServices) (s : World) {t : World}
    → complete_signup command r s ≡ (ok true, t)
    → command.now ≤ later
    → any (λ user. user.id == s.next_id) s.users ≡ false
    → (pending : PendingOAuthSignup) × (user : UserRow) × (find
          (is_pending command.token command.now)
          s.oauth_signups
        ≡ some pending)
      × (any (is_pending command.token later) t.oauth_signups ≡ false)
      × (t.users ≡ s.users ++ user ∷ [])
      × (user.external_only ≡ true)
      × (owner_of pending.provider pending.provider_user_id t ≡ some command.username)
unfolding complete_signup transaction
complete_signup-once command later r s {t = t} h order fresh =
    let (found, s1, ran, h1) = write-eq-ok _ _ _ (begin-eq-ok _ _ _ (settle-eq-ok s _ h)) in
    let (pending, is_found, done) = finish_signup-rows command found r s1 h1 in
    let (user, row, named, external, stands, is_next, owned, is_row, absent, users, rows, signups) =
      done in
    let after : (p : Result String (Option PendingOAuthSignup) × World) → World = λ p. p.1 in
    let same = ap after ran in
    let all_users = users ∙ ap (λ (w : World). w.users ++ user ∷ []) (sym same) in
    (
      pending,
      user,
      ok-injective (ap (λ (p : Result String (Option PendingOAuthSignup) × World). p.0) ran)
          ∙ is_found,
      ap (any (is_pending command.token later))
            (signups ∙ ap (λ (w : World). w.oauth_signups) (sym same))
          ∙ any-taken command.token command.now later s.oauth_signups order,
      all_users,
      external,
      ap
            (λ (cs : List OAuthConnection). name_of (
              standing_owner t.users
                (find (is_identity pending.provider pending.provider_user_id) cs)))
            rows
          ∙ ap (λ (c : Option OAuthConnection). name_of (standing_owner t.users c))
              (find-append _ s1.oauth_connections row absent is_row)
          ∙ ap
              (λ (us : List UserRow).
                name_of (find (λ u. u.id == row.user_id && is_none u.deleted_at) us))
              users
          ∙ ap name_of (
              find-append (λ u. u.id == row.user_id && is_none u.deleted_at) s1.users user
                (any-weaken (λ u. u.id == row.user_id) _ s1.users
                  (ap (λ (i : ℕ). any (λ u. u.id == i) s1.users) (owned ∙ is_next)
                    ∙ ap (λ (w : World). any (λ u. u.id == w.next_id) w.users) (sym same)
                    ∙ fresh))
                (ground (arith, owned, stands)))
          ∙ ap some named,
    )
