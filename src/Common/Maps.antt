-- ===== src/Common/Maps.antt =====
-- `HashMap<String, V>` as an association list. A write to a known key replaces the entry where
-- it stands, and a new key goes last, so a theorem for every list holds for every order in which
-- the hash table may be walked.
use Prim.Native.String.{String}
use mathlib.Core.Path.{◌≡◌, refl}
use mathlib.Core.Bool.{Bool, true, false, ◌||◌}
use mathlib.Core.Option.{Option, none, some}
use mathlib.Core.List.{List, [], ◌∷◌}
use text.Mathlib.TextEquality.{eq_iff}
use native.Mathlib.Omega.{arith}
use rust_agent_framework.Common.Tests.{◌==◌, if◌then◌else◌}

abbrev pub Map {ℓ} : Type ℓ → Type ℓ
Map V = List (String × V)

module _ {ℓ} {V : Type ℓ} where
  unfoldable pub get : Map V → String → Option V
  get [] k = none
  get ((j, v) ∷ m) k = if j == k then some v else get m k

  unfoldable pub insert : String → V → Map V → Map V
  insert k v [] = (k, v) ∷ []
  insert k v ((j, w) ∷ m) = if j == k then (j, v) ∷ m else (j, w) ∷ insert k v m

  unfoldable pub remove : String → Map V → Map V
  remove k [] = []
  remove k ((j, w) ∷ m) = let rest = remove k m in if j == k then rest else (j, w) ∷ rest

  abbrev pub is_some : Option V → Bool
  is_some none = false
  is_some (some v) = true

  unfoldable pub contains_key : Map V → String → Bool
  unfolding get
  contains_key m k = is_some (get m k)

  abbrev pub or_default : V → Option V → V
  or_default d none = d
  or_default d (some v) = v

  -- `entry(k).or_insert(d)` followed by a write through the reference.
  unfoldable pub update_entry : String → V → (V → V) → Map V → Map V
  unfolding get insert
  update_entry k d f m = insert k (f (or_default d (get m k))) m

  pub get-insert :
      (k j : String) (v : V) (m : Map V)
      → get (insert k v m) j ≡ (if k == j then some v else get m j)
  unfolding get insert
  get-insert k j v [] = refl
  get-insert k j v ((i, w) ∷ m) =
      ground (arith, eq_iff k j, eq_iff i k, eq_iff i j, get-insert k j v m)

  pub get-remove :
      (k j : String) (m : Map V) → get (remove k m) j ≡ (if k == j then none else get m j)
  unfolding get remove
  get-remove k j [] = ground arith
  get-remove k j ((i, w) ∷ m) = ground (arith, eq_iff k j, eq_iff i k, eq_iff i j, get-remove k j m)

  pub get-update_entry :
      (k j : String) (d : V) (f : V → V) (m : Map V)
      → get (update_entry k d f m) j
        ≡ (if k == j then some (f (or_default d (get m k))) else get m j)
  unfolding update_entry
  get-update_entry k j d f m = get-insert k j (f (or_default d (get m k))) m

module _ {ℓ} {V : Type ℓ} where
  pub contains-insert :
      (k j : String) (v : V) (m : Map V)
      → contains_key (insert k v m) j ≡ (k == j || contains_key m j)
  unfolding contains_key
  contains-insert k j v m = ground (arith, get-insert k j v m)

pub ruleset map_laws = (get-insert, get-remove, get-update_entry)
