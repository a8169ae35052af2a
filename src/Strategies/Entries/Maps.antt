-- ===== src/Strategies/Entries/Maps.antt =====
-- `BoundedEntries::to_map` of crates/strategies/src/map.rs. The maps of soroban_sdk are a parameter:
-- a new map is empty, and `set` gives a key its value and leaves the other keys.
use soro_fuzz.Base.{
  ◌≤◌, ◌≡◌, refl, Option, none, some, List, [], ◌∷◌, length, Eq, ◌==◌, if◌then◌else◌,
}
use soro_fuzz.Strategies.Source.{Source}
use soro_fuzz.Strategies.Entries.{max_map_entries, BoundedEntries, arbitrary, arbitrary_capped}

pub record MapSdk (Env K V : Type 0) ⦃e : Eq K⦄ : Type 1 where
  pub Map : Type 0
  pub new : Env → Map
  pub set : K → V → Map → Map
  pub get : K → Map → Option V
  pub get-new : (env : Env) (k : K) → get k (new env) ≡ none
  pub get-set :
      (k j : K) (v : V) (m : Map) → get j (set k v m) ≡ (if k == j then some v else get j m)

module _ {Env K V : Type 0} ⦃e : Eq K⦄ (sdk : MapSdk Env K V) where
  -- The loop of `to_map` over the entries that are left.
  unfoldable pub set_all : List (K × V) → sdk.Map → sdk.Map
  set_all [] map = map
  set_all ((k, v) ∷ entries) map = set_all entries (sdk.set k v map)

  unfoldable pub to_map : BoundedEntries K V → Env → sdk.Map
  unfolding set_all
  to_map self env = set_all self.entries (sdk.new env)

-- The value of the last entry with a key, or else the value given.
abbrev pub last_value : {K V : Type 0} ⦃e : Eq K⦄ → K → List (K × V) → Option V → Option V
last_value j [] before = before
last_value j ((k, v) ∷ entries) before = last_value j entries (if k == j then some v else before)

module _ {Env K V : Type 0} ⦃e : Eq K⦄ (sdk : MapSdk Env K V) where
  set_all-get :
      (entries : List (K × V)) (map : sdk.Map) (j : K)
      → sdk.get j (set_all sdk entries map) ≡ last_value j entries (sdk.get j map)
  unfolding set_all
  set_all-get [] map j = refl
  set_all-get ((k, v) ∷ entries) map j =
      rw (← sdk.get-set k j v map) (set_all-get entries (sdk.set k v map) j)

  -- Whatever the bytes are, the map that is built of the entries that are drawn has for each key the
  -- value of the last entry with it, and none for a key that was not drawn; and no more than
  -- `MAX_MAP_ENTRIES` entries are drawn.
  pub to_map_last :
      (source : Source) (key : source.Data → Option (K × source.Data))
      (value : source.Data → Option (V × source.Data)) (d : source.Data) (b : BoundedEntries K V)
      (d' : source.Data)
      → arbitrary source key value d ≡ some (b, d')
      → (env : Env) (j : K)
      → (sdk.get j (to_map sdk b env) ≡ last_value j b.entries none)
        × (length b.entries ≤ max_map_entries)
  unfolding to_map
  to_map_last source key value d b d' h env j = (
    rw (← sdk.get-new env j) (set_all-get b.entries (sdk.new env) j),
    arbitrary_capped source key value d b d' h,
  )
