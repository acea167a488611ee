-- ===== src/Yaml.antt =====
-- yaml-cpp's nodes as the programs use them, an interface. A missing key gives an undefined node, and
-- a conversion that fails throws.
pub mod Reads
use Prim.Native.String.{String, compare}
use Prim.Native.Nat.{Ordering}
use grit_deploy_onboard_g.Prelude.{ℕ, Bool, true, false, List, Result}

pub record Yaml {ℓ} (N : Type ℓ) : Type ℓ where
  pub get : N → String → N
  pub is_defined : N → Bool
  pub is_map : N → Bool
  pub is_sequence : N → Bool
  pub items : N → List N
  pub as_string : N → Result String
  -- `as<size_t>()`, `as<uint64_t>()`.
  pub as_size : N → Result ℕ
  -- `as<int>()`, by its 32 bits.
  pub as_int : N → Result ℕ
  -- `as<uint64_t>(fallback)`, `as<std::string>(fallback)`.
  pub size_or : N → ℕ → ℕ
  pub string_or : N → String → String
  pub bool_or : N → Bool → Bool
  -- `as<int>(fallback)`, by its 32 bits.
  pub int_or : N → ℕ → ℕ
  -- `node["key"]` and `node[i]` where the node may be undefined or a scalar, on which an index throws.
  pub child : N → String → Result N
  pub element : N → ℕ → Result N

-- The conversions to `float`.
pub record YamlFloats {ℓ κ} (N : Type ℓ) (F : Type κ) : Type (ℓ ⊔ κ) where
  pub as_float : N → Result F
  pub float_or : N → F → F

abbrev pub same_text : String → String → Bool
same_text s t = elim (compare s t) [ Ordering.eq ↦ true | _ ↦ false ]
