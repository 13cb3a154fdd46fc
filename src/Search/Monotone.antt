-- ===== src/Search/Monotone.antt =====
-- The revision that was applied to a document never goes down.
use hegira.Base.{
  ℕ, ◌+◌, ◌≤◌, String, ◌≡◌, refl, sym, ap, ◌∙◌, subst, Bool, true, false, ◌&&◌, not, Option, none,
  some, List, [], ◌∷◌, str_eq, find, retain, ◌⊎◌, inl, inr, Bool-cases, arith, eq_iff, Result, ok,
  err,
}
use hegira.Base.Actions.{◌>>=◌, ◌>>◌, pure, after, settle, transaction}
use hegira.Identity.Store.{SearchIndexCommand}
use hegira.Search.{
  ProjectionVersion, SearchWorld, SearchServices, Job, sql_answer, sql, call, is_version, applied,
  is_stale, put_version, roll_back, perform, apply_if, apply_revisioned, handle,
}

-- The revision as a number, from 0 for none.
abbrev pub rank : Option ℕ → ℕ
rank none = 0
rank (some n) = n + 1

pub applied-put :
    (index id : String) (revision : ℕ) (versions : List ProjectionVersion)
    → applied index id (put_version index id revision versions) ≡ some revision
unfolding applied put_version find
applied-put index id revision versions = ground (arith, eq_iff index index, eq_iff id id)

find-retain :
    (index id index' id' : String) (versions : List ProjectionVersion)
    → (str_eq index' index && str_eq id' id) ≡ false
    → find (is_version index id) (retain (λ row. not (is_version index' id' row)) versions)
      ≡ find (is_version index id) versions
unfolding find retain
find-retain index id index' id' [] h = refl
find-retain index id index' id' (row ∷ versions) h = ground (
  arith,
  h,
  eq_iff row.index_name index,
  eq_iff row.document_id id,
  eq_iff row.index_name index',
  eq_iff row.document_id id',
  eq_iff index' index,
  eq_iff id' id,
  find-retain index id index' id' versions,
)

abbrev pub tick : {Index : Type 0} → SearchWorld Index → SearchWorld Index
tick s = record s { ticks = s.ticks + 1 }

module _ {Index : Type 0} {A B : Type 0} (R : Result String B × SearchWorld Index → Type 0) where
  sql_at :
      (o : Option String) (f : SearchWorld Index → A × SearchWorld Index) (k : A → Job Index B)
      (r : SearchServices Index) (s : SearchWorld Index)
      → ((e : String) (t : SearchWorld Index) → R (err e, t))
      → R (k (f s).0 r (f s).1)
      → R (after (sql_answer o (f s) s).0 k r (sql_answer o (f s) s).1)
  sql_at none f k r s fails goes = goes
  sql_at (some e) f k r s fails goes = fails e s

  sql-step :
      (f : SearchWorld Index → A × SearchWorld Index) (k : A → Job Index B)
      (r : SearchServices Index) (s : SearchWorld Index)
      → ((e : String) (t : SearchWorld Index) → R (err e, t))
      → R (k (f (tick s)).0 r (f (tick s)).1)
      → R ((sql f >>= k) r s)
  unfolding sql ◌>>=◌
  sql-step f k r s fails goes = sql_at (r.db_error_at s.ticks) f k r (tick s) fails goes

module _ {Index : Type 0} {B : Type 0} (R : Result String B × SearchWorld Index → Type 0) where
  call_at :
      (o : Result String (Unit {0})) (k : Unit {0} → Job Index B) (r : SearchServices Index)
      (s : SearchWorld Index)
      → ((e : String) (t : SearchWorld Index) → R (err e, t))
      → R (k tt r s)
      → R (after o k r s)
  call_at (ok _) k r s fails goes = goes
  call_at (err e) k r s fails goes = fails e s

  -- A call of the engine leaves the table alone.
  perform-step :
      (index : String) (operation : SearchIndexCommand) (k : Unit {0} → Job Index B)
      (r : SearchServices Index) (s : SearchWorld Index)
      → ((e : String) (t : SearchWorld Index) → R (err e, t))
      → ((t : SearchWorld Index) → t.versions ≡ s.versions → R (k tt r t))
      → R ((perform index operation >>= k) r s)
  unfolding perform call ◌>>=◌
  perform-step index (SearchIndexCommand.upsert _ documents _) k r s fails goes =
      let (o, after_call) = r.upsert_at s.ticks index documents s.index in
      call_at o k r _ fails (goes _ refl)
  perform-step index (SearchIndexCommand.delete _ id _) k r s fails goes =
      let (o, after_call) = r.delete_at s.ticks index id s.index in
      call_at o k r _ fails (goes _ refl)

module _ {Index : Type 0} where
  -- A job changes the table only for a revision that is not stale.
  abbrev pub IsStep : String → String → ℕ → SearchWorld Index → SearchWorld Index → Type 0
  IsStep index id revision s t =
      (t.versions ≡ s.versions)
      ⊎ ((is_stale (applied index id s.versions) revision ≡ false)
          × (t.versions ≡ put_version index id revision s.versions))

  module _ (index id : String) (revision : ℕ) (operation : SearchIndexCommand) where
    abbrev Settled : SearchWorld Index → Result String Bool × SearchWorld Index → Type 0
    Settled s p = IsStep index id revision s (settle roll_back s p).1

    done :
        (b : Bool) (r : SearchServices Index) (s t : SearchWorld Index)
        → IsStep index id revision s t
        → Settled s (pure b r t)
    unfolding ◌>>=◌
    done b r s t h = h

    apply_if-IsStep :
        (stale : Bool) (r : SearchServices Index) (s t : SearchWorld Index)
        → t.versions ≡ s.versions
        → is_stale (applied index id s.versions) revision ≡ stale
        → Settled s (apply_if stale index id revision operation r t)
    unfolding apply_if
    apply_if-IsStep true r s t same stale =
        sql-step (Settled s) _ _ r t (λ e w. inl refl) (done false r s _ (inl same))
    apply_if-IsStep false r s t same fresh =
        perform-step (Settled s) index operation _ r t (λ e w. inl refl)
          λ w kept.
            sql-step (Settled s) _ _ r w (λ e w. inl refl)
              (sql-step (Settled s) _ _ r _ (λ e w. inl refl)
                (done true r s _ (inr (fresh, ap (put_version index id revision) (kept ∙ same)))))

    apply_revisioned-IsStep :
        (r : SearchServices Index) (s : SearchWorld Index)
        → IsStep index id revision s (apply_revisioned index id revision operation r s).1
    unfolding apply_revisioned transaction
    apply_revisioned-IsStep r s =
        sql-step (Settled s) _ _ r s (λ e w. inl refl)
          (sql-step (Settled s) _ _ r _ (λ e w. inl refl) (apply_if-IsStep _ r s _ refl refl))

  after-world :
      {A : Type 0} (o : Result String A) (r : SearchServices Index) (s : SearchWorld Index)
      → (after o (λ _. pure tt) r s).1 ≡ s
  unfolding ◌>>=◌
  after-world (ok a) r s = refl
  after-world (err e) r s = refl

  -- The answer is left out.
  pub discard-world :
      {A : Type 0} (m : Job Index A) (r : SearchServices Index) (s : SearchWorld Index)
      → ((m >> pure tt) r s).1 ≡ (m r s).1
  unfolding ◌>>=◌
  discard-world m r s = after-world (m r s).0 r (m r s).1

-- A revision that is not stale is above the one that was applied.
rank-fresh : (o : Option ℕ) (revision : ℕ) → is_stale o revision ≡ false → rank o ≤ revision + 1
rank-fresh none revision h = omega arith
rank-fresh (some n) revision h = ground (arith, h)

and-true : (a b : Bool) → (a && b) ≡ true → (a ≡ true) × (b ≡ true)
and-true true b h = (refl, h)
and-true false b h = cc

applied-other :
    (index id index' id' : String) (revision : ℕ) (versions : List ProjectionVersion)
    → (str_eq index' index && str_eq id' id) ≡ false
    → applied index id (put_version index' id' revision versions) ≡ applied index id versions
unfolding applied put_version find
applied-other index id index' id' revision versions h =
    ground (arith, h, find-retain index id index' id' versions h)

put-rank_same :
    (index id : String) (revision : ℕ) (versions : List ProjectionVersion)
    → is_stale (applied index id versions) revision ≡ false
    → rank (applied index id versions)
      ≤ rank (applied index id (put_version index id revision versions))
put-rank_same index id revision versions fresh = omega (
  arith,
  rank-fresh (applied index id versions) revision fresh,
  ap rank (applied-put index id revision versions),
)

put-rank :
    (index id index' id' : String) (revision : ℕ) (versions : List ProjectionVersion)
    → is_stale (applied index' id' versions) revision ≡ false
    → rank (applied index id versions)
      ≤ rank (applied index id (put_version index' id' revision versions))
put-rank index id index' id' revision versions fresh =
    elim (Bool-cases (str_eq index' index && str_eq id' id)) [
      | inl same ↦
          let (p, q) = and-true _ _ same in
          subst
            (λ (i : String).
              rank (applied i id versions)
              ≤ rank (applied i id (put_version index' id' revision versions)))
            ((eq_iff index' index).0 p)
            (subst
              (λ (j : String).
                rank (applied index' j versions)
                ≤ rank (applied index' j (put_version index' id' revision versions)))
              ((eq_iff id' id).0 q) (put-rank_same index' id' revision versions fresh))
      | inr other ↦
          omega (arith, ap rank (applied-other index id index' id' revision versions other))
    ]

applied-monotone :
    {Index : Type 0} (index id index' id' : String) (revision : ℕ) (s t : SearchWorld Index)
    → IsStep index' id' revision s t
    → rank (applied index id s.versions) ≤ rank (applied index id t.versions)
applied-monotone index id index' id' revision s t (inl same) =
    omega (arith, ap (λ (v : List ProjectionVersion). rank (applied index id v)) same)
applied-monotone index id index' id' revision s t (inr (fresh, same)) = omega (
  arith,
  put-rank index id index' id' revision s.versions fresh,
  ap (λ (v : List ProjectionVersion). rank (applied index id v)) same,
)

-- Whatever a job is asked to do and wherever it fails, the revision that was applied to a document
-- never goes down.
pub handle-monotone :
    {Index : Type 0} (index id : String) (command : SearchIndexCommand) (r : SearchServices Index)
    (s : SearchWorld Index)
    → rank (applied index id s.versions) ≤ rank (applied index id (handle command r s).1.versions)
unfolding handle call
handle-monotone index id (SearchIndexCommand.upsert i (d ∷ []) (some n)) r s =
    applied-monotone index id i d.id n s
      (handle (SearchIndexCommand.upsert i (d ∷ []) (some n)) r s).1
      (subst (IsStep i d.id n s) (sym (discard-world _ r s))
        (apply_revisioned-IsStep i d.id n _ r s))
handle-monotone index id (SearchIndexCommand.delete i d (some n)) r s =
    applied-monotone index id i d n s (handle (SearchIndexCommand.delete i d (some n)) r s).1
      (subst (IsStep i d n s) (sym (discard-world _ r s)) (apply_revisioned-IsStep i d n _ r s))
handle-monotone index id (SearchIndexCommand.upsert i [] n) r s = omega arith
handle-monotone index id (SearchIndexCommand.upsert i (d ∷ []) none) r s = omega arith
handle-monotone index id (SearchIndexCommand.upsert i (d ∷ e ∷ ds) n) r s = omega arith
handle-monotone index id (SearchIndexCommand.delete i d none) r s = omega arith
