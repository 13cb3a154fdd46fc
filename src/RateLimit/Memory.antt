-- ===== src/RateLimit/Memory.antt =====
-- `MemoryRateLimiter` of crates/http_support/src/rate_limit.rs: a sliding window of the instants
-- at which each client was admitted. Instants and durations are numbers of nanoseconds. The lock
-- makes a check one step, so `check` takes the map and returns it.
pub mod Clients
pub mod Ledger
pub mod Window
pub mod Quota
use hegira.Base.{
  ℕ, ◌+◌, ◌-◌, ◌/◌, max, String, Bool, true, false, Option, none, some, List, [], ◌∷◌, ◌++◌, ltb,
  leb, str_eq, if◌then◌else◌, length, retain,
}

pub record RateLimitDecision : Type 0 where
  pub allowed : Bool
  pub limit : ℕ
  pub remaining : ℕ
  pub reset_seconds : ℕ
  pub retry_after_seconds : Option ℕ

-- `HashMap<String, Vec<Instant>>`; no operation depends on the order of the entries.
abbrev pub ClientMap : Type 0
ClientMap = List (String × List ℕ)

-- `Duration::as_secs`
abbrev pub as_secs : ℕ → ℕ
as_secs duration = duration / 1_000_000_000

-- `now.duration_since(timestamp) < window`; `duration_since` saturates at zero.
abbrev pub is_recent : ℕ → ℕ → ℕ → Bool
is_recent window now timestamp = ltb (now - timestamp) window

-- `clients.retain(…)`: every client keeps its recent instants, and an empty one is dropped.
pub retain_clients : ℕ → ℕ → ClientMap → ClientMap
unfolding retain
retain_clients window now [] = []
retain_clients window now ((key, timestamps) ∷ clients) =
    let rest = retain_clients window now clients in
    elim (retain (is_recent window now) timestamps) [ [] ↦ rest | t ∷ ts ↦ (key, t ∷ ts) ∷ rest ]

-- What `entry(key).or_default()` refers to.
pub timestamps_of : String → ClientMap → List ℕ
timestamps_of key [] = []
timestamps_of key ((k, timestamps) ∷ clients) =
    if str_eq k key then timestamps else timestamps_of key clients

-- The map after the entry of `key` was written.
pub write_entry : String → List ℕ → ClientMap → ClientMap
write_entry key timestamps [] = (key, timestamps) ∷ []
write_entry key timestamps ((k, ts) ∷ clients) =
    if str_eq k key
    then (key, timestamps) ∷ clients
    else (k, ts) ∷ write_entry key timestamps clients

-- The seconds until the oldest admitted request leaves the window, and at least one.
pub retry_after : ℕ → ℕ → List ℕ → ℕ
retry_after window now [] = max (as_secs window) 1
retry_after window now (oldest ∷ _) = max (as_secs (window - (now - oldest))) 1

pub denied : ℕ → ℕ → RateLimitDecision
denied max_requests seconds = record {
  allowed = false;
  limit = max_requests;
  remaining = 0;
  reset_seconds = seconds;
  retry_after_seconds = some seconds;
}

pub admitted : ℕ → ℕ → ℕ → RateLimitDecision
admitted max_requests window used = record {
  allowed = true;
  limit = max_requests;
  remaining = max_requests - used;
  reset_seconds = max (as_secs window) 1;
  retry_after_seconds = none;
}

-- The instants of `key` that a check at `now` counts.
pub recent_of : String → ℕ → ℕ → ClientMap → List ℕ
recent_of key window now clients =
    retain (is_recent window now) (timestamps_of key (retain_clients window now clients))

-- `MemoryRateLimiter::check`
unfoldable pub check : String → ℕ → ℕ → ℕ → ClientMap → RateLimitDecision × ClientMap
unfolding retain_clients timestamps_of write_entry retry_after denied admitted recent_of
check key max_requests window now clients =
    let kept = retain_clients window now clients in
    let timestamps = recent_of key window now clients in
    if leb max_requests (length timestamps)
    then (denied max_requests (retry_after window now timestamps), write_entry key timestamps kept)
    else (
      admitted max_requests window (length (timestamps ++ now ∷ [])),
      write_entry key (timestamps ++ now ∷ []) kept,
    )
