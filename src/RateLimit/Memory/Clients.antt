-- ===== src/RateLimit/Memory/Clients.antt =====
-- The map of clients: what a client's entry is after a clean-up and after a write.
use hegira.Base.{
  ℕ, ◌≤◌, String, ◌≡◌, refl, Bool, true, false, List, [], ◌∷◌, arith, eq_iff, str_eq, if◌then◌else◌,
  retain,
}
use hegira.RateLimit.Memory.{ClientMap, is_recent, retain_clients, timestamps_of, write_entry}

abbrev pub has_entry : String → ClientMap → Bool
has_entry j [] = false
has_entry j ((k, ts) ∷ clients) = if str_eq k j then true else has_entry j clients

-- No client has two entries.
abbrev pub IsKeyed : ClientMap → Type 0
IsKeyed [] = Unit
IsKeyed ((k, ts) ∷ clients) = (has_entry k clients ≡ false) × IsKeyed clients

pub timestamps_of-write_entry :
    (j k : String) (ts : List ℕ) (clients : ClientMap)
    → timestamps_of j (write_entry k ts clients)
      ≡ (if str_eq k j then ts else timestamps_of j clients)
unfolding timestamps_of write_entry
timestamps_of-write_entry j k ts [] = refl
timestamps_of-write_entry j k ts ((i, us) ∷ clients) =
    ground (arith, eq_iff k j, eq_iff i k, eq_iff i j, timestamps_of-write_entry j k ts clients)

has_entry-write_entry :
    (j k : String) (ts : List ℕ) (clients : ClientMap)
    → has_entry j (write_entry k ts clients) ≡ (if str_eq k j then true else has_entry j clients)
unfolding write_entry
has_entry-write_entry j k ts [] = refl
has_entry-write_entry j k ts ((i, us) ∷ clients) =
    ground (arith, eq_iff k j, eq_iff i k, eq_iff i j, has_entry-write_entry j k ts clients)

pub write_entry-IsKeyed :
    (k : String) (ts : List ℕ) (clients : ClientMap)
    → IsKeyed clients
    → IsKeyed (write_entry k ts clients)
unfolding write_entry
write_entry-IsKeyed k ts [] h = (refl, tt)
write_entry-IsKeyed k ts ((i, us) ∷ clients) h = ground (
  arith,
  eq_iff i k,
  eq_iff k i,
  has_entry-write_entry i k ts clients,
  write_entry-IsKeyed k ts clients h.1,
)

has_entry-retain_clients :
    (j : String) (window now : ℕ) (clients : ClientMap)
    → has_entry j clients ≡ false
    → has_entry j (retain_clients window now clients) ≡ false
unfolding retain_clients
has_entry-retain_clients j window now [] h = refl
has_entry-retain_clients j window now ((k, ts) ∷ clients) h =
    ground (arith, has_entry-retain_clients j window now clients)

pub retain_clients-IsKeyed :
    (window now : ℕ) (clients : ClientMap)
    → IsKeyed clients
    → IsKeyed (retain_clients window now clients)
unfolding retain_clients
retain_clients-IsKeyed window now [] h = tt
retain_clients-IsKeyed window now ((k, ts) ∷ clients) h = ground (
  arith,
  has_entry-retain_clients k window now clients h.0,
  retain_clients-IsKeyed window now clients h.1,
)

timestamps_of-no_entry :
    (j : String) (clients : ClientMap) → has_entry j clients ≡ false → timestamps_of j clients ≡ []
unfolding timestamps_of
timestamps_of-no_entry j [] h = refl
timestamps_of-no_entry j ((k, ts) ∷ clients) h = ground (arith, timestamps_of-no_entry j clients)

-- An older instant that was dropped stays dropped.
pub retain-retain :
    (window now later : ℕ) (ts : List ℕ)
    → now ≤ later
    → retain (is_recent window later) (retain (is_recent window now) ts)
      ≡ retain (is_recent window later) ts
unfolding retain
retain-retain window now later [] h = refl
retain-retain window now later (t ∷ ts) h = ground (arith, retain-retain window now later ts h)

-- The clean-up keeps of a client exactly its recent instants.
pub timestamps_of-retain_clients :
    (j : String) (window now : ℕ) (clients : ClientMap)
    → IsKeyed clients
    → timestamps_of j (retain_clients window now clients)
      ≡ retain (is_recent window now) (timestamps_of j clients)
unfolding timestamps_of retain_clients retain
timestamps_of-retain_clients j window now [] h = refl
timestamps_of-retain_clients j window now ((k, ts) ∷ clients) h = ground (
  arith,
  eq_iff k j,
  timestamps_of-retain_clients j window now clients h.1,
  timestamps_of-no_entry j clients,
)
