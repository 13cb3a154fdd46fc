-- ===== src/Identity/Auth/Success.antt =====
-- What it takes that a step of the authentication service succeeds: one lemma for each way to begin
-- a chain, with the state after the step as it is computed.
use hegira.Base.{
  ℕ, ◌+◌, String, ◌≡◌, refl, ap, Bool, true, false, Option, none, some, Result, ok, err,
  ok-injective,
}
use hegira.Base.Actions.{◌>>=◌, raise, lift, gets, raise_if, some_or, after, pure}
use hegira.Identity.Errors.{ApplicationError, ApplicationResult}
use hegira.Identity.Store.{
  World, IdentityServices, Repository, Service, outside, answer, statement, query, db_error,
}
use hegira.Identity.Auth.{from_repository, via, try_outside}

-- The state after a call to the outside.
abbrev pub tick : World → World
tick s = record s { ticks = s.ticks + 1 }

module _ {A B : Type 0} {r : IdentityServices} {b : B} {t : World} where
  answer-eq-ok :
      (o : Option String) (m : Result String A × World) (s : World) (k : A → Service B)
      → after
          (from_repository (answer db_error o m s)).0
          k
          r
          (from_repository (answer db_error o m s)).1
        ≡ (ok b, t)
      → (a : A) × (s' : World) × (m ≡ (ok a, s')) × (k a r s' ≡ (ok b, t))
  unfolding answer
  answer-eq-ok none (ok a, s') s k h = (a, s', refl, h)
  answer-eq-ok none (err e, s') s k h = cc (ap (λ (p : Result ApplicationError B × World). p.0) h)
  answer-eq-ok (some e) m s k h = cc (ap (λ (p : Result ApplicationError B × World). p.0) h)

  pub statement-eq-ok :
      (f : World → Result String A × World) (k : A → Service B) (s : World)
      → (via (statement db_error f) >>= k) r s ≡ (ok b, t)
      → (a : A) × (s' : World) × (f (tick s) ≡ (ok a, s')) × (k a r s' ≡ (ok b, t))
  unfolding ◌>>=◌ via statement
  statement-eq-ok f k s h = answer-eq-ok (r.db_error_at s.ticks) (f (tick s)) (tick s) k h

  answer_read :
      (o : Option String) (a : A) (s : World) (k : A → Service B)
      → after
          (from_repository (answer db_error o (ok a, s) s)).0
          k
          r
          (from_repository (answer db_error o (ok a, s) s)).1
        ≡ (ok b, t)
      → k a r s ≡ (ok b, t)
  unfolding answer
  answer_read none a s k h = h
  answer_read (some e) a s k h = cc (ap (λ (p : Result ApplicationError B × World). p.0) h)

  pub query-eq-ok :
      (f : World → A) (k : A → Service B) (s : World)
      → (via (query f) >>= k) r s ≡ (ok b, t)
      → k (f (tick s)) r (tick s) ≡ (ok b, t)
  unfolding ◌>>=◌ via statement
  query-eq-ok f k s h = answer_read (r.db_error_at s.ticks) (f (tick s)) (tick s) k h

  after_try :
      (o : ApplicationResult A) (s : World) (k : A → Service B)
      → after o k r s ≡ (ok b, t)
      → (a : A) × (o ≡ ok a) × (k a r s ≡ (ok b, t))
  after_try (ok a) s k h = (a, refl, h)
  after_try (err e) s k h = cc (ap (λ (p : Result ApplicationError B × World). p.0) h)

  pub try_outside-eq-ok :
      (f : IdentityServices → ℕ → ApplicationResult A) (k : A → Service B) (s : World)
      → (try_outside f >>= k) r s ≡ (ok b, t)
      → (a : A) × (f r s.ticks ≡ ok a) × (k a r (tick s) ≡ (ok b, t))
  unfolding ◌>>=◌ try_outside outside
  try_outside-eq-ok f k s h = after_try (f r s.ticks) (tick s) k h

  pub some_or-eq-ok :
      (o : Option A) (e : ApplicationError) (k : A → Service B) (s : World)
      → (some_or o e >>= k) r s ≡ (ok b, t)
      → (a : A) × (o ≡ some a) × (k a r s ≡ (ok b, t))
  unfolding ◌>>=◌
  some_or-eq-ok none e k s h = cc (ap (λ (p : Result ApplicationError B × World). p.0) h)
  some_or-eq-ok (some a) e k s h = (a, refl, h)

module _ {B : Type 0} {r : IdentityServices} {b : B} {t : World} where
  pub raise_if-eq-ok :
      (c : Bool) (e : ApplicationError) (k : Unit {0} → Service B) (s : World)
      → (raise_if c e >>= k) r s ≡ (ok b, t)
      → (c ≡ false) × (k tt r s ≡ (ok b, t))
  unfolding ◌>>=◌
  raise_if-eq-ok true e k s h = cc (ap (λ (p : Result ApplicationError B × World). p.0) h)
  raise_if-eq-ok false e k s h = (refl, h)

pub outside-eq-ok :
    {A B : Type 0} (f : IdentityServices → ℕ → A) (k : A → Service B) (r : IdentityServices)
    (s : World) {b : B} {t : World}
    → (outside f >>= k) r s ≡ (ok b, t)
    → k (f r s.ticks) r (tick s) ≡ (ok b, t)
unfolding ◌>>=◌ outside
outside-eq-ok f k r s h = h

-- A method of a repository that begins with a call to the outside.
pub via-outside-eq-ok :
    {A B C : Type 0} (f : IdentityServices → ℕ → C) (g : C → Repository A) (k : A → Service B)
    (r : IdentityServices) (s : World) {b : B} {t : World}
    → (via (outside f >>= g) >>= k) r s ≡ (ok b, t)
    → (via (g (f r s.ticks)) >>= k) r (tick s) ≡ (ok b, t)
unfolding ◌>>=◌ outside via
via-outside-eq-ok f g k r s h = h

-- The last step of a chain.
pub pure-eq-ok :
    {B : Type 0} (a : B) (r : IdentityServices) (s : World) {b : B} {t : World}
    → pure {E = ApplicationError} a r s ≡ (ok b, t)
    → (a ≡ b) × (s ≡ t)
unfolding ◌>>=◌
pure-eq-ok {B = B} a r s h = (
  ok-injective (ap (λ (p : Result ApplicationError B × World). p.0) h),
  ap (λ (p : Result ApplicationError B × World). p.1) h,
)

pub raise_if-last :
    (c : Bool) (e : ApplicationError) (r : IdentityServices) (s : World) {u : Unit {0}} {t : World}
    → raise_if c e r s ≡ (ok u, t)
    → (c ≡ false) × (s ≡ t)
unfolding ◌>>=◌
raise_if-last true e r s h = cc (ap (λ (p : Result ApplicationError (Unit {0}) × World). p.0) h)
raise_if-last false e r s h = (refl, ap (λ (p : Result ApplicationError (Unit {0}) × World). p.1) h)

-- A result that is handed on, a value of the state, and an error.
pub lift-eq-ok :
    {A B : Type 0} (m : ApplicationResult A) (k : A → Service B) (r : IdentityServices) (s : World)
    {b : B} {t : World}
    → (lift m >>= k) r s ≡ (ok b, t)
    → (a : A) × (m ≡ ok a) × (k a r s ≡ (ok b, t))
unfolding ◌>>=◌
lift-eq-ok (ok a) k r s h = (a, refl, h)
lift-eq-ok {B = B} (err e) k r s h = cc (ap (λ (p : Result ApplicationError B × World). p.0) h)

pub gets-eq-ok :
    {A B : Type 0} (f : IdentityServices → World → A) (k : A → Service B) (r : IdentityServices)
    (s : World) {b : B} {t : World}
    → (gets f >>= k) r s ≡ (ok b, t)
    → k (f r s) r s ≡ (ok b, t)
unfolding ◌>>=◌
gets-eq-ok f k r s h = h

pub raise-not-ok :
    {A : Type 0} (e : ApplicationError) (r : IdentityServices) (s : World) {a : A} {t : World}
    → ¬ (raise e r s ≡ (ok a, t))
unfolding ◌>>=◌
raise-not-ok {A = A} e r s h = cc (ap (λ (p : Result ApplicationError A × World). p.0) h)
