-- ===== src/Base/Actions.antt =====
-- Methods of an object with state: `R` is what the method only reads (the object's settings and what
-- lies outside the program), `S` is what it changes, and `E` is its error. What was changed before an
-- error stays changed.
use mathlib.Core.Path.{◌≡◌, refl, ap}
use mathlib.Core.Bool.{Bool, true, false}
use mathlib.Core.Option.{Option, none, some}
use hegira.Base.Results.{Result, ok, err}

abbrev pub Action : Type 0 → Type 0 → Type 0 → Type 0 → Type 0
Action R S E A = R → S → Result E A × S

module _ {R S E A : Type 0} where
  pub pure : A → Action R S E A
  pure a r s = (ok a, s)

  pub raise : E → Action R S E A
  raise e r s = (err e, s)

  -- A value of the settings and the state.
  pub gets : (R → S → A) → Action R S E A
  gets f r s = (ok (f r s), s)

  -- `?` on a result.
  pub lift : Result E A → Action R S E A
  lift m r s = (m, s)

  -- `ok_or(e)?`
  pub some_or : Option A → E → Action R S E A
  some_or none e r s = (err e, s)
  some_or (some a) e r s = (ok a, s)

-- `if b { return Err(e) }`
pub raise_if : {R S E : Type 0} → Bool → E → Action R S E (Unit {0})
raise_if true e r s = (err e, s)
raise_if false e r s = (ok tt, s)

abbrev pub after : {R S E A B : Type 0} → Result E A → (A → Action R S E B) → R → S → Result E B × S
after (ok a) f r s = f a r s
after (err e) f r s = (err e, s)

infixl 5 ◌>>=◌ ◌>>◌
-- Opening this opens the ways to begin an action too.
unfoldable pub ◌>>=◌ : {R S E A B : Type 0} → Action R S E A → (A → Action R S E B) → Action R S E B
unfolding pure raise gets lift some_or raise_if
◌>>=◌ m f r s = let (a, s') = m r s in after a f r s'

abbrev pub ◌>>◌ : {R S E A B : Type 0} → Action R S E A → Action R S E B → Action R S E B
m >> k = m >>= λ _. k

-- A database transaction: an error puts back what `restore` takes from the state before.
abbrev pub settle : {S E A : Type 0} → (S → S → S) → S → Result E A × S → Result E A × S
settle restore before (ok a, s) = (ok a, s)
settle restore before (err e, s) = (err e, restore before s)

unfoldable pub transaction : {R S E A : Type 0} → (S → S → S) → Action R S E A → Action R S E A
transaction restore m r s = settle restore s (m r s)

module _ {R S E A B : Type 0} where
  after-eq-ok :
      (o : Result E A) (f : A → Action R S E B) (r : R) (s' : S) {b : B} {t : S}
      → after o f r s' ≡ (ok b, t)
      → (a : A) × (o ≡ ok a) × (f a r s' ≡ (ok b, t))
  after-eq-ok (ok a) f r s' h = (a, refl, h)
  after-eq-ok (err e) f r s' h = cc (ap (λ (p : Result E B × S). p.0) h)

  -- A chain that succeeds, taken apart.
  pub bind-eq-ok :
      (m : Action R S E A) (f : A → Action R S E B) (r : R) (s : S) {b : B} {t : S}
      → (m >>= f) r s ≡ (ok b, t)
      → (a : A) × (s' : S) × (m r s ≡ (ok a, s')) × (f a r s' ≡ (ok b, t))
  unfolding ◌>>=◌
  bind-eq-ok m f r s h =
      let (o, s') = m r s in
      let (a, e, k) = after-eq-ok o f r s' h in (a, s', ap (λ (x : Result E A). (x, s')) e, k)
