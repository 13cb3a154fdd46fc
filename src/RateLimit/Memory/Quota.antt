-- ===== src/RateLimit/Memory/Quota.antt =====
-- The sliding window: what a run of `MemoryRateLimiter::check` admits.
use hegira.Base.{
  eq_iff, ℕ, ◌+◌, ◌≤◌, String, Bool, List, [], ◌∷◌, ◌≡◌, refl, arith, str_eq, ltb, if◌then◌else◌,
  length, retain, retain-append, length-append,
}
use hegira.RateLimit.Memory.{ClientMap, timestamps_of, check}
use hegira.RateLimit.Memory.Ledger.{
  Arrival, instants_of, in_window, admissions, record_arrival, serve, IsOrdered, last_instant,
  instants_of-record_arrival,
}
use hegira.RateLimit.Memory.Window.{
  AreUpTo, AreUpTo-mono, Represents, allowed-check, check-Represents,
}

-- No window of a client has more admissions than the maximum.
abbrev pub IsWithinQuota : ℕ → ℕ → List Arrival → Type 0
IsWithinQuota window max_requests ledger =
    (key : String) (t : ℕ) → admissions key window t ledger ≤ max_requests

module _ (window : ℕ) where
  -- What a later window counts, of instants up to `now`, the window at `now` counted.
  retain-in_window-le :
      (now t : ℕ) (ts : List ℕ)
      → AreUpTo now ts
      → now ≤ t
      → length (retain (in_window window t) ts) ≤ length (retain (in_window window now) ts)
  unfolding retain
  retain-in_window-le now t [] h k = omega arith
  retain-in_window-le now t (x ∷ ts) h k = ground (arith, retain-in_window-le now t ts h.1 k)

  -- What a decision adds to the admissions of a client in the window that ends at `t`.
  abbrev weight : String → ℕ → Bool → Arrival → ℕ
  weight key t allowed a =
      if str_eq a.client key
      then (if allowed then (if in_window window t a.instant then 1 else 0) else 0)
      else 0

  length-retain_added :
      (key : String) (t : ℕ) (allowed : Bool) (a : Arrival)
      → length (
          retain
            (in_window window t)
            (if str_eq a.client key then (if allowed then a.instant ∷ [] else []) else []))
        ≡ weight key t allowed a
  unfolding retain
  length-retain_added key t allowed a = ground arith

  admissions-record_arrival :
      (key : String) (t : ℕ) (ledger : List Arrival) (allowed : Bool) (a : Arrival)
      → admissions key window t (record_arrival allowed a ledger)
        ≡ admissions key window t ledger + weight key t allowed a
  unfolding admissions
  admissions-record_arrival key t ledger allowed a =
      rw (instants_of-record_arrival key ledger allowed a, retain-append, length-append)
        (rw (length-retain_added key t allowed a))

  admissions-le :
      (key : String) (now t : ℕ) (ledger : List Arrival)
      → AreUpTo now (instants_of key ledger)
      → now ≤ t
      → admissions key window t ledger ≤ admissions key window now ledger
  unfolding admissions
  admissions-le key now t ledger h k = retain-in_window-le now t (instants_of key ledger) h k

  module _ (max_requests : ℕ) where
    -- One request keeps every window of every client within the maximum.
    check-IsWithinQuota :
        (last : ℕ) (clients : ClientMap) (ledger : List Arrival) (a : Arrival)
        → Represents window last clients ledger
        → last ≤ a.instant
        → IsWithinQuota window max_requests ledger
        → IsWithinQuota window max_requests (
            record_arrival
              (check a.client max_requests window a.instant clients).0.allowed
              a
              ledger)
    check-IsWithinQuota last clients ledger a r h q key t = ground (
      arith,
      admissions-record_arrival key t ledger
          (check a.client max_requests window a.instant clients).0.allowed a,
      allowed-check window max_requests last clients ledger key a.instant r h,
      admissions-le key a.instant t ledger
          (AreUpTo-mono window last a.instant (instants_of key ledger) h (r.past key)),
      eq_iff a.client key,
      q key t,
    )

    -- A run keeps the representation, at the instant of its last request, and the quota.
    abbrev IsSound : ℕ → ClientMap × List Arrival → Type 0
    IsSound last (clients, ledger) =
        Represents window last clients ledger × IsWithinQuota window max_requests ledger

    serve-IsSound :
        (last : ℕ) (arrivals : List Arrival) (clients : ClientMap) (ledger : List Arrival)
        → IsOrdered last arrivals
        → IsSound last (clients, ledger)
        → IsSound
            (last_instant last arrivals)
            (serve max_requests window arrivals (clients, ledger))
    unfolding serve
    serve-IsSound last [] clients ledger o s = s
    serve-IsSound last (a ∷ arrivals) clients ledger o s =
        let (decision, clients') = check a.client max_requests window a.instant clients in
        serve-IsSound a.instant arrivals clients' (record_arrival decision.allowed a ledger) o.1 (
          check-Represents window max_requests last clients ledger a s.0 o.0,
          check-IsWithinQuota last clients ledger a s.0 o.0 s.1,
        )

    empty-IsSound : IsSound 0 ([], [])
    unfolding instants_of timestamps_of admissions retain
    empty-IsSound =
        (record { keyed = tt; past = λ key. tt; same = λ key now h. refl }, λ key t. omega arith)

    -- From an empty map, and with a clock that does not go back, no window of the given length, at
    -- whatever instant it ends, has more than the maximum of admitted requests of one client.
    pub serve-IsWithinQuota :
        (arrivals : List Arrival)
        → IsOrdered 0 arrivals
        → IsWithinQuota window max_requests (serve max_requests window arrivals ([], [])).1
    serve-IsWithinQuota arrivals o = (serve-IsSound 0 arrivals [] [] o empty-IsSound).1

    -- After such a run the next request of a client is admitted exactly when fewer than the maximum
    -- of its requests were admitted in the window that ends now, whatever other clients did.
    pub check-serve :
        (arrivals : List Arrival) (key : String) (now : ℕ)
        → IsOrdered 0 arrivals
        → last_instant 0 arrivals ≤ now
        → let (clients, ledger) = serve max_requests window arrivals ([], []) in
          (check key max_requests window now clients).0.allowed
          ≡ ltb (admissions key window now ledger) max_requests
    check-serve arrivals key now o h =
        let (clients, ledger) = serve max_requests window arrivals ([], []) in
        allowed-check window max_requests (last_instant 0 arrivals) clients ledger key now
          (serve-IsSound 0 arrivals [] [] o empty-IsSound).0 h
