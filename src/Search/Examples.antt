-- ===== src/Search/Examples.antt =====
-- The theorems on the search projection at concrete inputs: an engine with one index, of one
-- document or none.
use hegira.Base.{
  ℕ, ◌+◌, ◌≤◌, String, ◌≡◌, refl, Bool, true, false, Option, none, some, List, [], ◌∷◌, ◌++◌, map,
  arith, ok,
}
use hegira.Identity.Store.{SearchDocument, SearchIndexCommand}
use hegira.Search.{SearchWorld, SearchServices, applied, handle, handle_all}
use hegira.Search.Monotone.{rank, handle-monotone}
use hegira.Search.Newest.{Change, put, remove, command_of, IsReliable, handle_all-newest}

abbrev Document : Type 0
Document = Option SearchDocument

abbrev write : String → String → Change → Document → Document
write index id (put document) all = some document
write index id remove all = none

abbrev first_of : List SearchDocument → Document → Document
first_of [] all = all
first_of (document ∷ documents) all = some document

abbrev engine : SearchServices Document
engine = record {
  db_error_at = λ t. none;
  upsert_at = λ t index documents all. (ok tt, first_of documents all);
  delete_at = λ t index id all. (ok tt, none);
}

replaces :
    (index id : String) (a b : Change) (all : Document)
    → write index id b (write index id a all) ≡ write index id b all
replaces index id a (put document) all = refl
replaces index id a remove all = refl

engine-IsReliable : IsReliable engine write
engine-IsReliable = record {
  no_error = λ t. refl;
  upserts = λ t index document all. refl;
  deletes = λ t index id all. refl;
  replaces = replaces;
}

abbrev document : String → SearchDocument
document name = record {
  id = "d1";
  username = name;
  created_at = 0;
  is_verified = true;
  roles = [];
}

abbrev start : SearchWorld Document
start = record { index = none; versions = []; ticks = 0 }

handle-monotone_example :
    rank (applied "users" "d1" start.versions)
    ≤ rank (
        applied "users" "d1"
          (handle (SearchIndexCommand.delete "users" "d1" (some 4)) engine start).1.versions)
handle-monotone_example =
    handle-monotone "users" "d1" (SearchIndexCommand.delete "users" "d1" (some 4)) engine start

abbrev changes : List (ℕ × Change)
changes = (1, put (document "alice")) ∷ (3, put (document "bob")) ∷ (2, remove) ∷ []

handle_all-newest_example :
    ((handle_all (map (command_of "users" "d1") changes) engine start).index
      ≡ some (document "bob"))
    × (applied "users" "d1"
          (handle_all (map (command_of "users" "d1") changes) engine start).versions
        ≡ some 3)
unfolding applied hegira.Base.find
handle_all-newest_example =
    handle_all-newest write engine engine-IsReliable "users" "d1" 3 (put (document "bob"))
      ((1, put (document "alice")) ∷ []) ((2, remove) ∷ []) start (omega arith, tt)
      (omega arith, tt) refl
