-- ===== src/Joints.antt =====
-- Joint orders: g1_sim2real/src/g1_npz_policy.cpp (`source_indices`) and g1_sim2real/src/
-- g1_udp_bridge.cpp (`build_index_map`, `build_source_indices`). A hash map is a list of its entries; an
-- `emplace` of a key that is there fails.
pub mod Index
pub mod Inverse
use Prim.Native.String.{String, ◌++◌}
use text.Mathlib.Text.{◌==◌}
use grit_deploy_onboard_g.Prelude.{
  ℕ, ◌+◌, Option, none, some, is_some, List, [], ◌∷◌, if◌then◌else◌, not, Result, ok, throw,
  require, ◌>>=◌, ◌>>◌, map_m,
}

unfoldable pub find : String → List (String × ℕ) → Option ℕ
find name [] = none
find name (entry ∷ index) = if entry.0 == name then some entry.1 else find name index

-- The loop over `source` from index `i` on.
unfoldable pub index_names :
    String → ℕ → List String → List (String × ℕ) → Result (List (String × ℕ))
index_names message i [] index = ok index
index_names message i (name ∷ names) index = do
  require (not (is_some (find name index))) (message ++ name)
  index_names message (i + 1) names ((name, i) ∷ index)

abbrev pub index_or_throw : String → Option ℕ → Result ℕ
index_or_throw message none = throw message
index_or_throw message (some i) = ok i

unfoldable pub build_source_indices : List String → List (String × ℕ) → String → Result (List ℕ)
build_source_indices target index message =
    map_m (λ name. index_or_throw (message ++ name) (find name index)) target

-- `build_index_map` of the bridge.
unfoldable pub build_index_map : List String → Result (List (String × ℕ))
build_index_map names = index_names "Duplicate joint name: " 0 names []

-- `source_indices` of the policy.
unfoldable pub source_indices : List String → List String → String → Result (List ℕ)
source_indices target source label = do
  index ← index_names ("Duplicate joint in " ++ (label ++ ": ")) 0 source []
  build_source_indices target index (label ++ " is missing joint: ")
