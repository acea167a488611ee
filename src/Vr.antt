-- ===== src/Vr.antt =====
-- The client of the VR operator: g1_sim2real/src/vr_motion_client.cpp, `VrMotionClient::Impl` in a build
-- with ZeroMQ, and how it reads a message.
pub mod Control
pub mod Heard
pub mod Sticks
pub mod Poses
pub mod Frames
use Prim.Native.String.{String}
use grit_deploy_onboard_g.Prelude.{
  ℕ, Bool, true, false, not, ◌&&◌, ◌||◌, Option, none, some, length, ltb, if◌then◌else◌, Result, ok,
  catch, ◌>>=◌,
}
use grit_deploy_onboard_g.Floats.{Floats, ◌-F◌, float, clamp}
use grit_deploy_onboard_g.Yaml.{Yaml, YamlFloats}

-- The members that `poll_operator_input` changes.
pub record VrClient {ℓ} (F : Type ℓ) : Type ℓ where
  pub previous_x : Bool
  pub previous_a : Bool
  pub previous_b : Bool
  pub previous_y : Bool
  pub latest_sticks_valid : Bool
  pub latest_left_x : F
  pub latest_left_y : F
  pub latest_right_x : F
  pub last_control_receive_ns : ℕ

module _ {κ} {N : Type κ} ⦃yaml : Yaml N⦄ where
  unfoldable pub yaml_bool : N → String → Result Bool
  yaml_bool node key = do
    value ← yaml.child node key
    ok (yaml.is_defined value && yaml.bool_or value false)

  unfoldable pub is_pair : N → Bool
  is_pair value = not (
      not (yaml.is_defined value)
      || (not (yaml.is_sequence value) || ltb (length (yaml.items value)) 2))

module _ {ℓ} {F : Type ℓ} ⦃fl : Floats F⦄ where
  -- `std::clamp(x, -1.0f, 1.0f)`.
  abbrev pub clamp_axis : F → F
  clamp_axis x = clamp x (fl.neg (float 1)) (float 1)

  unfoldable pub finite_pair : Option (F × F) → Option (F × F)
  finite_pair none = none
  finite_pair (some (x, y)) =
      if fl.isfinite x && fl.isfinite y then some (clamp_axis x, clamp_axis y) else none

module _ {ℓ κ} {N : Type κ} {F : Type ℓ} ⦃fl : Floats F⦄ ⦃yaml : Yaml N⦄
    ⦃floats : YamlFloats N F⦄ where
  -- The two numbers, or nothing where a conversion throws.
  unfoldable pub read_pair : N → Result (Option (F × F))
  read_pair value = do
    let numbers = do
      first ← yaml.element value 0
      x ← floats.as_float first
      second ← yaml.element value 1
      y ← floats.as_float second
      ok (some (x, y))
    catch none numbers

  unfoldable pub yaml_axis : N → String → Result (Option (F × F))
  yaml_axis node key = do
    value ← yaml.child node key
    let numbers = read_pair value >>= λ read. ok (finite_pair read)
    if is_pair value then numbers else ok none
