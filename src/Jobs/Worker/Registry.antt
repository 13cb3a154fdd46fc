-- ===== src/Jobs/Worker/Registry.antt =====
-- `DurableJobRegistry` of crates/background_jobs/src/lib.rs: the handler of a name.
use hegira.Base.{
  String, ◌≡◌, ◌≢◌, Bool, true, false, not, some, [], ◌∷◌, arith, eq_iff, find, is_some, Result, ok,
  err,
}
use hegira.Jobs.Worker.{DurableJobHandler, DurableJobRegistry, get, replace, register}

abbrev pub is_ok : {E A : Type 0} → Result E A → Bool
is_ok (ok a) = true
is_ok (err e) = false

module _ {P : Type 0} where
  get-replace :
      (handler : DurableJobHandler P) (handlers : DurableJobRegistry P)
      → get handler.name (replace handler handlers) ≡ some handler
  unfolding replace find
  get-replace handler [] = ground (arith, eq_iff handler.name handler.name)
  get-replace handler (h ∷ handlers) =
      ground (arith, eq_iff handler.name handler.name, get-replace handler handlers)

  get_other-replace :
      (name : String) (handler : DurableJobHandler P) (handlers : DurableJobRegistry P)
      → name ≢ handler.name
      → get name (replace handler handlers) ≡ get name handlers
  unfolding replace find
  get_other-replace name handler [] d = ground (arith, eq_iff handler.name name)
  get_other-replace name handler (h ∷ handlers) d = ground (
    arith,
    eq_iff handler.name name,
    eq_iff h.name name,
    eq_iff h.name handler.name,
    get_other-replace name handler handlers,
  )

  -- Registering answers with an error exactly if the name has a handler; in both cases the new handler
  -- is the one of its name afterwards, and every other name keeps its own.
  pub get-register :
      (handler : DurableJobHandler P) (handlers : DurableJobRegistry P) (name : String)
      → name ≢ handler.name
      → (is_ok (register handler handlers).0 ≡ not (is_some (get handler.name handlers)))
        × (get handler.name (register handler handlers).1 ≡ some handler)
        × (get name (register handler handlers).1 ≡ get name handlers)
  unfolding register
  get-register handler handlers name d =
      (ground arith, get-replace handler handlers, get_other-replace name handler handlers d)
