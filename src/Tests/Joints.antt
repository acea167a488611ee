-- ===== src/Tests/Joints.antt =====
-- The theorems on joint orders (g1_sim2real/src/g1_npz_policy.cpp, `source_indices`) at three joints.
use Prim.Native.String.{String}
use grit_deploy_onboard_g.Prelude.{
  ℕ, ◌≡◌, refl, List, [], ◌∷◌, ok, Ensures, Ensures-ok, map_m, require,
}
use grit_deploy_onboard_g.Grit.{gather}
use grit_deploy_onboard_g.Joints.{find, index_names, build_source_indices, source_indices}
use grit_deploy_onboard_g.Joints.Inverse.{IsMap, source_indices-IsMap, gather-inverse}

abbrev reference : List String
reference = "hip" ∷ "knee" ∷ "ankle" ∷ []

abbrev controller : List String
controller = "knee" ∷ "ankle" ∷ "hip" ∷ []

source_indices-IsMap_example :
    Ensures (IsMap reference controller) (source_indices reference controller "map")
source_indices-IsMap_example = source_indices-IsMap reference controller "map"

to_reference : source_indices reference controller "map" ≡ ok (2 ∷ 0 ∷ 1 ∷ [])
unfolding source_indices build_source_indices index_names find map_m require
to_reference = refl

to_controller : source_indices controller reference "map" ≡ ok (1 ∷ 2 ∷ 0 ∷ [])
unfolding source_indices build_source_indices index_names find map_m require
to_controller = refl

abbrev values : List ℕ
values = 10 ∷ 20 ∷ 30 ∷ []

gather-inverse_example :
    Ensures (λ w. gather w (1 ∷ 2 ∷ 0 ∷ []) ≡ ok values) (gather values (2 ∷ 0 ∷ 1 ∷ []))
gather-inverse_example =
    gather-inverse reference controller (2 ∷ 0 ∷ 1 ∷ []) (1 ∷ 2 ∷ 0 ∷ []) values
      (Ensures-ok (source_indices-IsMap reference controller "map") to_reference)
      (Ensures-ok (source_indices-IsMap controller reference "map") to_controller) refl
