-- ===== src/RateLimit/Memory/Window.antt =====
-- The map of clients represents the ledger of admissions, and the window bounds it.
use mathlib.Core.List.{append-nil}
use hegira.Base.{
  ℕ, ◌≤◌, String, Bool, List, [], ◌∷◌, ◌++◌, ◌≡◌, refl, arith, eq_iff, ltb, str_eq, if◌then◌else◌,
  retain, retain-append, Bool-cases, inl, inr,
}
use hegira.RateLimit.Memory.{ClientMap, is_recent, retain_clients, timestamps_of, recent_of, check}
use hegira.RateLimit.Memory.Clients.{
  IsKeyed, timestamps_of-write_entry, write_entry-IsKeyed, retain_clients-IsKeyed, retain-retain,
  timestamps_of-retain_clients,
}
use hegira.RateLimit.Memory.Ledger.{
  Arrival, instants_of, in_window, admissions, record_arrival, instants_of-record_arrival,
}

-- Every instant of the list is at most `last`.
abbrev pub AreUpTo : ℕ → List ℕ → Type 0
AreUpTo last [] = Unit
AreUpTo last (t ∷ ts) = (t ≤ last) × AreUpTo last ts

-- The map holds, of every client, the admissions that can still count.
pub record Represents (window last : ℕ) (clients : ClientMap) (ledger : List Arrival) : Type 0 where
  pub keyed : IsKeyed clients
  pub past : (key : String) → AreUpTo last (instants_of key ledger)
  pub same :
      (key : String) (now : ℕ)
      → last ≤ now
      → retain (is_recent window now) (timestamps_of key clients)
        ≡ retain (is_recent window now) (instants_of key ledger)

module _ (window : ℕ) where
  recent_of_lem :
      (key : String) (now : ℕ) (clients : ClientMap)
      → IsKeyed clients
      → recent_of key window now clients ≡ retain (is_recent window now) (timestamps_of key clients)
  unfolding recent_of
  recent_of_lem key now clients h =
      rw (timestamps_of-retain_clients key window now clients h)
        (retain-retain window now now (timestamps_of key clients) (omega arith))

  -- Up to `now` the window test is the test of recency.
  retain-in_window :
      (now : ℕ) (ts : List ℕ)
      → AreUpTo now ts
      → retain (in_window window now) ts ≡ retain (is_recent window now) ts
  unfolding retain
  retain-in_window now [] h = refl
  retain-in_window now (t ∷ ts) h = ground (arith, retain-in_window now ts h.1)

  pub AreUpTo-mono : (a b : ℕ) (ts : List ℕ) → a ≤ b → AreUpTo a ts → AreUpTo b ts
  AreUpTo-mono a b [] h k = tt
  AreUpTo-mono a b (t ∷ ts) h k = (omega arith, AreUpTo-mono a b ts h k.1)

  AreUpTo-append : (b : ℕ) (ts us : List ℕ) → AreUpTo b ts → AreUpTo b us → AreUpTo b (ts ++ us)
  AreUpTo-append b [] us h k = k
  AreUpTo-append b (t ∷ ts) us h k = (h.0, AreUpTo-append b ts us h.1 k)

  module _ (max_requests last : ℕ) (clients : ClientMap) (ledger : List Arrival) where
    -- The decision is the one that the ledger calls for: fewer than the maximum in the window.
    pub allowed-check :
        (key : String) (now : ℕ)
        → Represents window last clients ledger
        → last ≤ now
        → (check key max_requests window now clients).0.allowed
          ≡ ltb (admissions key window now ledger) max_requests
    unfolding check admissions
    allowed-check key now r h =
        rw
          (
            retain-in_window now (instants_of key ledger)
                (AreUpTo-mono last now (instants_of key ledger) h (r.past key)),
            ← r.same key now h,
            recent_of_lem key now clients r.keyed,
          )
          (ground arith)

    -- What the check leaves of a client.
    timestamps_of-check :
        (key j : String) (now : ℕ)
        → IsKeyed clients
        → let (decision, clients') = check key max_requests window now clients in
          timestamps_of j clients' ≡ (
            if str_eq key j
            then retain (is_recent window now) (timestamps_of key clients)
              ++ (if decision.allowed then now ∷ [] else [])
            else retain (is_recent window now) (timestamps_of j clients))
    unfolding check
    timestamps_of-check key j now h = ground (
      arith,
      recent_of_lem key now clients h,
      timestamps_of-retain_clients j window now clients h,
      timestamps_of-write_entry j key (recent_of key window now clients)
          (retain_clients window now clients),
      timestamps_of-write_entry j key (recent_of key window now clients ++ now ∷ [])
          (retain_clients window now clients),
      append-nil (recent_of key window now clients),
    )

    check-IsKeyed :
        (key : String) (now : ℕ)
        → IsKeyed clients
        → IsKeyed (check key max_requests window now clients).1
    unfolding check
    check-IsKeyed key now h = ground (
      arith,
      write_entry-IsKeyed key (recent_of key window now clients) (retain_clients window now clients)
          (retain_clients-IsKeyed window now clients h),
      write_entry-IsKeyed key (recent_of key window now clients ++ now ∷ [])
          (retain_clients window now clients) (retain_clients-IsKeyed window now clients h),
    )

    record_arrival-AreUpTo :
        (j : String) (allowed : Bool) (a : Arrival)
        → AreUpTo last (instants_of j ledger)
        → last ≤ a.instant
        → AreUpTo a.instant (instants_of j (record_arrival allowed a ledger))
    record_arrival-AreUpTo j allowed a h k = rw (instants_of-record_arrival j ledger allowed a) (
        AreUpTo-append a.instant (instants_of j ledger) _
          (AreUpTo-mono last a.instant (instants_of j ledger) k h) (ground arith))

    same-check :
        (a : Arrival) (j : String) (later : ℕ)
        → Represents window last clients ledger
        → last ≤ a.instant
        → a.instant ≤ later
        → let (decision, clients') = check a.client max_requests window a.instant clients in
          retain (is_recent window later) (timestamps_of j clients')
          ≡ retain
              (is_recent window later)
              (instants_of j (record_arrival decision.allowed a ledger))
    same-check a j later r h k =
        let allowed = (check a.client max_requests window a.instant clients).0.allowed in
        let added : List ℕ = if allowed then a.instant ∷ [] else [] in
        rw
          (
            timestamps_of-check a.client j a.instant r.keyed,
            instants_of-record_arrival j ledger allowed a,
          )
          (elim (Bool-cases (str_eq a.client j)) [
            | inl e ↦ rw e (
                cc (
                  (eq_iff a.client j).0 e,
                  retain-append (is_recent window later)
                      (retain (is_recent window a.instant) (timestamps_of a.client clients)) added,
                  retain-append (is_recent window later) (instants_of j ledger) added,
                  retain-retain window a.instant later (timestamps_of a.client clients) k,
                  r.same j later (omega arith),
                ))
            | inr e ↦ rw e (
                cc (
                  append-nil (instants_of j ledger),
                  retain-retain window a.instant later (timestamps_of j clients) k,
                  r.same j later (omega arith),
                ))
          ])

    -- A request that the check decides keeps the map a representation of the ledger.
    pub check-Represents :
        (a : Arrival)
        → Represents window last clients ledger
        → last ≤ a.instant
        → let (decision, clients') = check a.client max_requests window a.instant clients in
          Represents window a.instant clients' (record_arrival decision.allowed a ledger)
    check-Represents a r h =
        let allowed = (check a.client max_requests window a.instant clients).0.allowed in
        record {
          keyed = check-IsKeyed a.client a.instant r.keyed;
          past = λ j. record_arrival-AreUpTo j allowed a (r.past j) h;
          same = λ j later k. same-check a j later r h k;
        }
