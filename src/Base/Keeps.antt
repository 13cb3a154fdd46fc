-- ===== src/Base/Keeps.antt =====
-- Invariants of actions: one rule for each way to build an action.
use mathlib.Core.Bool.{Bool, true, false}
use mathlib.Core.Option.{Option, none, some}
use hegira.Base.Tests.{if◌then◌else◌}
use hegira.Base.Results.{Result, ok, err}
use hegira.Base.Actions.{
  Action, pure, raise, gets, lift, some_or, raise_if, ◌>>=◌, transaction, after, settle,
}

-- `m` keeps `P`, whether it returns or fails.
pub record Keeps {R S E A : Type 0} (P : S → Type 0) (m : Action R S E A) : Type 0 where
  pub at : (r : R) (s : S) → P s → P (m r s).1

settle-Keeps :
    {S E A : Type 0} (P : S → Type 0) (restore : S → S → S) (before : S) (o : Result E A) (s : S)
    → P (restore before s)
    → P s
    → P (settle restore before (o, s)).1
settle-Keeps P restore before (ok a) s h k = k
settle-Keeps P restore before (err e) s h k = h

module _ {R S E A : Type 0} {P : S → Type 0} where
  pub Keeps-pure : (a : A) → Keeps {R = R} {E = E} P (pure a)
  unfolding ◌>>=◌
  Keeps-pure a = record { at = λ r s h. h }

  pub Keeps-raise : (e : E) → Keeps {R = R} {A = A} P (raise e)
  unfolding ◌>>=◌
  Keeps-raise e = record { at = λ r s h. h }

  pub Keeps-gets : (f : R → S → A) → Keeps {E = E} P (gets f)
  unfolding ◌>>=◌
  Keeps-gets f = record { at = λ r s h. h }

  pub Keeps-lift : (m : Result E A) → Keeps {R = R} P (lift m)
  unfolding ◌>>=◌
  Keeps-lift m = record { at = λ r s h. h }

  pub Keeps-some_or : (o : Option A) (e : E) → Keeps {R = R} P (some_or o e)
  unfolding ◌>>=◌
  Keeps-some_or none e = record { at = λ r s h. h }
  Keeps-some_or (some a) e = record { at = λ r s h. h }

  pub Keeps-if :
      (b : Bool) (m n : Action R S E A) → Keeps P m → Keeps P n → Keeps P (if b then m else n)
  Keeps-if true m n km kn = km
  Keeps-if false m n km kn = kn

  -- `restore` may mix the two states.
  pub Keeps-transaction :
      (restore : S → S → S) (m : Action R S E A)
      → ((before after : S) → P before → P after → P (restore before after))
      → Keeps P m
      → Keeps P (transaction restore m)
  unfolding transaction
  Keeps-transaction restore m mixes km = record {
    at = λ r s h.
        settle-Keeps P restore s (m r s).0 (m r s).1 (mixes s (m r s).1 h (km.at r s h))
          (km.at r s h);
  }

pub Keeps-raise_if :
    {R S E : Type 0} {P : S → Type 0} (b : Bool) (e : E) → Keeps {R = R} P (raise_if b e)
unfolding ◌>>=◌
Keeps-raise_if true e = record { at = λ r s h. h }
Keeps-raise_if false e = record { at = λ r s h. h }

module _ {R S E A B : Type 0} {P : S → Type 0} where
  after-Keeps :
      (o : Result E A) (f : A → Action R S E B) (r : R) (s : S)
      → ((a : A) → Keeps P (f a))
      → P s
      → P (after o f r s).1
  after-Keeps (ok a) f r s kf h = (kf a).at r s h
  after-Keeps (err e) f r s kf h = h

  pub Keeps-bind :
      (m : Action R S E A) (f : A → Action R S E B)
      → Keeps P m
      → ((a : A) → Keeps P (f a))
      → Keeps P (m >>= f)
  unfolding ◌>>=◌
  Keeps-bind m f km kf = record {
    at = λ r s h. after-Keeps (m r s).0 f r (m r s).1 kf (km.at r s h);
  }

pub ruleset keeps_rules = (
  Keeps-pure, Keeps-raise, Keeps-gets, Keeps-lift, Keeps-some_or, Keeps-raise_if, Keeps-if,
  Keeps-bind,
)
