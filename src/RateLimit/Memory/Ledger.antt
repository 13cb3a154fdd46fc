-- ===== src/RateLimit/Memory/Ledger.antt =====
-- The abstract view of the limiter: the admissions so far, oldest first. A run of requests through
-- `MemoryRateLimiter::check` keeps the map of clients beside it.
use mathlib.Core.List.{append-nil}
use hegira.Base.{
  ℕ, ◌-◌, ◌≤◌, String, Bool, ◌&&◌, List, [], ◌∷◌, ◌++◌, ◌≡◌, refl, arith, ltb, leb, str_eq,
  if◌then◌else◌, length, retain,
}
use hegira.RateLimit.Memory.{ClientMap, check}

-- A request of a client at an instant.
pub record Arrival : Type 0 where
  pub client : String
  pub instant : ℕ

-- The instants of one client.
unfoldable pub instants_of : String → List Arrival → List ℕ
instants_of key [] = []
instants_of key (a ∷ ledger) =
    let rest = instants_of key ledger in if str_eq a.client key then a.instant ∷ rest else rest

-- Whether an instant lies in the window of the given length that ends at `t`.
abbrev pub in_window : ℕ → ℕ → ℕ → Bool
in_window window t instant = leb instant t && ltb (t - instant) window

-- How many requests of a client were admitted in the window that ends at `t`.
unfoldable pub admissions : String → ℕ → ℕ → List Arrival → ℕ
admissions key window t ledger = length (retain (in_window window t) (instants_of key ledger))

-- The ledger after a request on which `allowed` was decided.
abbrev pub record_arrival : Bool → Arrival → List Arrival → List Arrival
record_arrival allowed a ledger = if allowed then ledger ++ a ∷ [] else ledger

-- Requests in their order, each checked against the map that the ones before left.
unfoldable pub serve : ℕ → ℕ → List Arrival → ClientMap × List Arrival → ClientMap × List Arrival
serve max_requests window [] state = state
serve max_requests window (a ∷ arrivals) (clients, ledger) =
    let (decision, clients') = check a.client max_requests window a.instant clients in
    serve max_requests window arrivals (clients', record_arrival decision.allowed a ledger)

-- The instants never go back, starting from `last`: the clock is monotonic.
abbrev pub IsOrdered : ℕ → List Arrival → Type 0
IsOrdered last [] = Unit
IsOrdered last (a ∷ arrivals) = (last ≤ a.instant) × IsOrdered a.instant arrivals

-- The instant of the last request.
abbrev pub last_instant : ℕ → List Arrival → ℕ
last_instant last [] = last
last_instant last (a ∷ arrivals) = last_instant a.instant arrivals

pub instants_of-append :
    (key : String) (ledger : List Arrival) (a : Arrival)
    → instants_of key (ledger ++ a ∷ [])
      ≡ instants_of key ledger ++ (if str_eq a.client key then a.instant ∷ [] else [])
unfolding instants_of
instants_of-append key [] a = refl
instants_of-append key (b ∷ ledger) a = ground (arith, instants_of-append key ledger a)

-- What a decision adds to the instants of a client.
pub instants_of-record_arrival :
    (key : String) (ledger : List Arrival) (allowed : Bool) (a : Arrival)
    → instants_of key (record_arrival allowed a ledger)
      ≡ instants_of key ledger
        ++ (if str_eq a.client key then (if allowed then a.instant ∷ [] else []) else [])
instants_of-record_arrival key ledger allowed a =
    ground (arith, instants_of-append key ledger a, append-nil (instants_of key ledger))
