-- ===== src/Yaml/Reads.antt =====
-- What the programs rely on in yaml-cpp's conversions: they return or throw, and a `size_t` has 64 bits.
use Prim.Native.String.{String}
use grit_deploy_onboard_g.Prelude.{ℕ, ◌^◌, ◌<◌, Ensures}
use grit_deploy_onboard_g.Yaml.{Yaml, YamlFloats}

pub record IsYaml {ℓ} {N : Type ℓ} (yaml : Yaml N) : Type ℓ where
  pub as_string : (n : N) → Ensures (λ s. Unit {0}) (yaml.as_string n)
  pub as_size : (n : N) → Ensures (λ k. k < 2 ^ 64) (yaml.as_size n)
  pub child : (n : N) (key : String) → Ensures (λ m. Unit {0}) (yaml.child n key)
  pub element : (n : N) (i : ℕ) → Ensures (λ m. Unit {0}) (yaml.element n i)
  pub int_or : (n : N) (k : ℕ) → k < 2 ^ 32 → yaml.int_or n k < 2 ^ 32
  pub as_int : (n : N) → Ensures (λ k. k < 2 ^ 32) (yaml.as_int n)

pub record IsYamlFloats {ℓ κ} {N : Type ℓ} {F : Type κ} (floats : YamlFloats N F)
    : Type (ℓ ⊔ κ) where
  pub as_float : (n : N) → Ensures (λ x. Unit {0}) (floats.as_float n)
