-- ===== src/Search/Newest.antt =====
-- Of the changes of a document the newest one stays, in whatever order they are brought.
use hegira.Base.{
  ℕ, ◌+◌, ◌<◌, String, ◌≡◌, refl, sym, ap, ◌∙◌, subst, Bool, true, false, Option, none, some, List,
  [], ◌∷◌, ◌++◌, map, arith, Result, ok, err,
}
use hegira.Base.Actions.{◌>>=◌, pure, after, settle, transaction}
use hegira.Identity.Store.{SearchDocument, SearchIndexCommand}
use hegira.Search.{
  ProjectionVersion, SearchWorld, SearchServices, Job, sql_answer, sql, call, applied, is_stale,
  put_version, roll_back, perform, apply_if, apply_revisioned, handle, handle_all,
}
use hegira.Search.Monotone.{tick, discard-world, applied-put}

-- A change of a document: new contents, or none.
pub data Change : Type 0 where
  put : SearchDocument → Change
  remove : Change

-- A change of the document of an id.
abbrev pub named : String → Change → Change
named id (put document) = put (record document { id = id })
named id remove = remove

-- The job for a revision of a document.
abbrev pub command_of : String → String → ℕ × Change → SearchIndexCommand
command_of index id (revision, put document) =
    SearchIndexCommand.upsert index (record document { id = id } ∷ []) (some revision)
command_of index id (revision, remove) = SearchIndexCommand.delete index id (some revision)

-- Neither the database nor the engine fails; `write` is what the engine does to its index. The last
-- change of a document counts: it replaces what was there.
pub record IsReliable {Index : Type 0} (r : SearchServices Index)
    (write : String → String → Change → Index → Index) : Type 0 where
  pub no_error : (t : ℕ) → r.db_error_at t ≡ none
  pub upserts :
      (t : ℕ) (index : String) (document : SearchDocument) (all : Index)
      → r.upsert_at t index (document ∷ []) all
        ≡ (ok tt, write index document.id (put document) all)
  pub deletes :
      (t : ℕ) (index id : String) (all : Index)
      → r.delete_at t index id all ≡ (ok tt, write index id remove all)
  pub replaces :
      (index id : String) (a b : Change) (all : Index)
      → write index id b (write index id a all) ≡ write index id b all

module _ {Index : Type 0} {A B : Type 0} (R : Result String B × SearchWorld Index → Type 0) where
  sql_goes_at :
      (o : Option String) (f : SearchWorld Index → A × SearchWorld Index) (k : A → Job Index B)
      (r : SearchServices Index) (s : SearchWorld Index)
      → o ≡ none
      → R (k (f s).0 r (f s).1)
      → R (after (sql_answer o (f s) s).0 k r (sql_answer o (f s) s).1)
  sql_goes_at none f k r s h goes = goes
  sql_goes_at (some e) f k r s h goes = cc

  sql-goes :
      (f : SearchWorld Index → A × SearchWorld Index) (k : A → Job Index B)
      (r : SearchServices Index) (s : SearchWorld Index)
      → r.db_error_at s.ticks ≡ none
      → R (k (f (tick s)).0 r (f (tick s)).1)
      → R ((sql f >>= k) r s)
  unfolding sql ◌>>=◌
  sql-goes f k r s h goes = sql_goes_at (r.db_error_at s.ticks) f k r (tick s) h goes

module _ {Index : Type 0} (write : String → String → Change → Index → Index) where
  -- The operation does the change.
  abbrev Does : SearchServices Index → String → String → Change → SearchIndexCommand → Type 1
  Does r index id change operation =
      (R : Result String Bool × SearchWorld Index → Type 0) (k : Unit {0} → Job Index Bool)
      (s : SearchWorld Index)
      → ((t : SearchWorld Index)
          → t.versions ≡ s.versions
          → t.index ≡ write index id change s.index
          → R (k tt r t))
      → R ((perform index operation >>= k) r s)

  -- What a job leaves behind.
  abbrev pub IsDone :
      Bool → String → String → ℕ → Change → SearchWorld Index → SearchWorld Index → Type 0
  IsDone true index id revision change s t = (t.index ≡ s.index) × (t.versions ≡ s.versions)
  IsDone false index id revision change s t =
      (t.index ≡ write index id change s.index)
      × (t.versions ≡ put_version index id revision s.versions)

  module _ (r : SearchServices Index) (reliable : IsReliable r write) (index id : String)
      (revision : ℕ) (change : Change) (operation : SearchIndexCommand)
      (does : Does r index id change operation) where
    abbrev Done : Bool → SearchWorld Index → Result String Bool × SearchWorld Index → Type 0
    Done stale s p = IsDone stale index id revision change s (settle roll_back s p).1

    done :
        (stale b : Bool) (s t : SearchWorld Index)
        → IsDone stale index id revision change s t
        → Done stale s (pure b r t)
    unfolding ◌>>=◌
    done stale b s t h = h

    apply_if-IsDone :
        (stale : Bool) (s t : SearchWorld Index)
        → t.versions ≡ s.versions
        → t.index ≡ s.index
        → Done stale s (apply_if stale index id revision operation r t)
    unfolding apply_if
    apply_if-IsDone true s t versions same =
        sql-goes (Done true s) _ _ r t (reliable.no_error t.ticks)
          (done true false s _ (same, versions))
    apply_if-IsDone false s t versions same = does (Done false s) _ t λ w kept written.
        sql-goes (Done false s) _ _ r w (reliable.no_error w.ticks) (
          sql-goes (Done false s) _ _ r _ (reliable.no_error _) (
            done false true s _ (
              written ∙ ap (write index id change) same,
              ap (put_version index id revision) (kept ∙ versions),
            )))

    apply_revisioned-IsDone :
        (s : SearchWorld Index)
        → IsDone
            (is_stale (applied index id s.versions) revision)
            index
            id
            revision
            change
            s
            (apply_revisioned index id revision operation r s).1
    unfolding apply_revisioned transaction
    apply_revisioned-IsDone s =
        let stale = is_stale (applied index id s.versions) revision in
        sql-goes (Done stale s) _ _ r s (reliable.no_error s.ticks) (
          sql-goes (Done stale s) _ _ r _ (reliable.no_error _)
            (apply_if-IsDone stale s _ refl refl))

  call_goes :
      (R : Result String Bool × SearchWorld Index → Type 0) (k : Unit {0} → Job Index Bool)
      (r : SearchServices Index) (answer : Result String (Unit {0}) × Index) (all : Index)
      (s : SearchWorld Index)
      → answer ≡ (ok tt, all)
      → ((t : SearchWorld Index) → t.versions ≡ s.versions → t.index ≡ all → R (k tt r t))
      → R (after answer.0 k r (record s { index = answer.1; ticks = s.ticks + 1 }))
  call_goes R k r (ok _, after_call) all s h goes =
      goes _ refl (ap (λ (p : Result String (Unit {0}) × Index). p.1) h)
  call_goes R k r (err e, after_call) all s h goes =
      cc (ap (λ (p : Result String (Unit {0}) × Index). p.0) h)

  module _ (r : SearchServices Index) (reliable : IsReliable r write) where
    put-Does :
        (index : String) (document : SearchDocument)
        → Does r index document.id
            (put document)
            (SearchIndexCommand.upsert index (document ∷ []) none)
    unfolding perform call ◌>>=◌
    put-Does index document R k s goes =
        call_goes R k r _ _ s (reliable.upserts s.ticks index document s.index) goes

    remove-Does :
        (index id : String) → Does r index id remove (SearchIndexCommand.delete index id none)
    unfolding perform call ◌>>=◌
    remove-Does index id R k s goes =
        call_goes R k r _ _ s (reliable.deletes s.ticks index id s.index) goes

    handle-IsDone :
        (index id : String) (revision : ℕ) (change : Change) (s : SearchWorld Index)
        → IsDone
            (is_stale (applied index id s.versions) revision)
            index
            id
            revision
            (named id change)
            s
            (handle (command_of index id (revision, change)) r s).1
    unfolding handle
    handle-IsDone index id revision (put document) s =
        subst
          (IsDone (is_stale (applied index id s.versions) revision) index id revision
            (named id (put document)) s)
          (sym (discard-world _ r s))
          (apply_revisioned-IsDone r reliable index id revision _ _
            (put-Does index (record document { id = id })) s)
    handle-IsDone index id revision remove s =
        subst (IsDone (is_stale (applied index id s.versions) revision) index id revision remove s)
          (sym (discard-world _ r s))
          (apply_revisioned-IsDone r reliable index id revision _ _ (remove-Does index id) s)

is_stale-eq :
    (o : Option ℕ) (n revision : ℕ) → o ≡ some revision → n < revision → is_stale o n ≡ true
is_stale-eq none n revision h lt = cc
is_stale-eq (some last) n revision h lt = ground (arith, h, lt)

-- Every revision of the changes is below one.
abbrev pub AreBelow : ℕ → List (ℕ × Change) → Type 0
AreBelow revision [] = Unit {0}
AreBelow revision ((n, change) ∷ changes) = (n < revision) × AreBelow revision changes

module _ {Index : Type 0} (write : String → String → Change → Index → Index)
    (r : SearchServices Index) (reliable : IsReliable r write) (index id : String)
    (revision : ℕ) where
  -- Nothing newer was applied, and the next change replaces what is there as it would at the start.
  abbrev IsReady : SearchWorld Index → SearchWorld Index → Type 0
  IsReady s t =
      ((change : Change) → write index id change t.index ≡ write index id change s.index)
      × (is_stale (applied index id t.versions) revision ≡ false)

  handle-IsReady :
      (n : ℕ) (change : Change) (stale : Bool) (s t u : SearchWorld Index)
      → n < revision
      → IsReady s t
      → IsDone write stale index id n change t u
      → IsReady s u
  handle-IsReady n change true s t u lt (replaced, fresh) (same, versions) = (
    λ next. ap (write index id next) same ∙ replaced next,
    ap (λ (v : List ProjectionVersion). is_stale (applied index id v) revision) versions ∙ fresh,
  )
  handle-IsReady n change false s t u lt (replaced, fresh) (written, versions) = (
    λ next.
        ap (write index id next) written
        ∙ reliable.replaces index id change next t.index
        ∙ replaced next,
    ap (λ (v : List ProjectionVersion). is_stale (applied index id v) revision) versions
        ∙ ap (λ (o : Option ℕ). is_stale o revision) (applied-put index id n t.versions)
        ∙ ground (arith, lt),
  )

  handle_all-IsReady :
      (changes : List (ℕ × Change)) (s t : SearchWorld Index)
      → AreBelow revision changes
      → IsReady s t
      → IsReady s (handle_all (map (command_of index id) changes) r t)
  unfolding handle_all
  handle_all-IsReady [] s t below ready = ready
  handle_all-IsReady ((n, change) ∷ changes) s t (lt, below) ready =
      handle_all-IsReady changes s _ below
        (handle-IsReady n _ _ s t _ lt ready (handle-IsDone write r reliable index id n change t))

  -- Later changes that are older are left out.
  handle_all-stale :
      (changes : List (ℕ × Change)) (t : SearchWorld Index)
      → AreBelow revision changes
      → applied index id t.versions ≡ some revision
      → ((handle_all (map (command_of index id) changes) r t).index ≡ t.index)
        × (applied index id (handle_all (map (command_of index id) changes) r t).versions
            ≡ some revision)
  unfolding handle_all
  handle_all-stale [] t below last = (refl, last)
  handle_all-stale ((n, change) ∷ changes) t (lt, below) last =
      let u = (handle (command_of index id (n, change)) r t).1 in
      let (same, versions) : (u.index ≡ t.index) × (u.versions ≡ t.versions) =
        subst (λ (b : Bool). IsDone write b index id n (named id change) t u)
          (is_stale-eq (applied index id t.versions) n revision last lt)
          (handle-IsDone write r reliable index id n change t) in
      let (index_same, last_same) =
        handle_all-stale changes u below (ap (applied index id) versions ∙ last) in
      (index_same ∙ same, last_same)

handle_all-append :
    {Index : Type 0} (xs ys : List SearchIndexCommand) (r : SearchServices Index)
    (s : SearchWorld Index)
    → handle_all (xs ++ ys) r s ≡ handle_all ys r (handle_all xs r s)
unfolding handle_all
handle_all-append [] ys r s = refl
handle_all-append (x ∷ xs) ys r s = handle_all-append xs ys r (handle x r s).1

map-append : {A B : Type 0} (f : A → B) (xs ys : List A) → map f (xs ++ ys) ≡ map f xs ++ map f ys
map-append f [] ys = refl
map-append f (x ∷ xs) ys = cc (map-append f xs ys)

-- Where nothing fails, a document ends as its newest change has it, in whatever order and however
-- often the older ones are brought, before it and after it; the index is the one that this change
-- alone would give.
pub handle_all-newest :
    {Index : Type 0} (write : String → String → Change → Index → Index) (r : SearchServices Index)
    (reliable : IsReliable r write) (index id : String) (revision : ℕ) (change : Change)
    (before later : List (ℕ × Change)) (s : SearchWorld Index)
    → AreBelow revision before
    → AreBelow revision later
    → is_stale (applied index id s.versions) revision ≡ false
    → ((handle_all (map (command_of index id) (before ++ (revision, change) ∷ later)) r s).index
        ≡ write index id (named id change) s.index)
      × (applied index id
            (handle_all
              (map (command_of index id) (before ++ (revision, change) ∷ later))
              r
              s).versions
          ≡ some revision)
unfolding handle_all
handle_all-newest write r reliable index id revision change before later s older oldest fresh =
    let t = handle_all (map (command_of index id) before) r s in
    let u = (handle (command_of index id (revision, change)) r t).1 in
    let (replaced, free) =
      handle_all-IsReady write r reliable index id revision before s s older (λ c. refl, fresh) in
    let (written, versions) : IsDone write false index id revision (named id change) t u =
      subst (λ (b : Bool). IsDone write b index id revision (named id change) t u) free
        (handle-IsDone write r reliable index id revision change t) in
    let (same, last) =
      handle_all-stale write r reliable index id revision later u oldest
        (ap (applied index id) versions ∙ applied-put index id revision t.versions) in
    let whole : handle_all (map (command_of index id) (before ++ (revision, change) ∷ later)) r s
        ≡ handle_all (map (command_of index id) later) r u =
      ap (λ (cs : List SearchIndexCommand). handle_all cs r s)
        (map-append (command_of index id) before ((revision, change) ∷ later))
      ∙ handle_all-append (map (command_of index id) before) _ r s in
    (
      ap (λ (w : SearchWorld _). w.index) whole ∙ same ∙ written ∙ replaced (named id change),
      ap (λ (w : SearchWorld _). applied index id w.versions) whole ∙ last,
    )
