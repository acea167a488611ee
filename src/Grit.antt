-- ===== src/Grit.antt =====
-- The whole-body policy: g1_sim2real/src/g1_npz_policy.cpp, `GritPolicy` with `RobotState`. Its
-- segment is played one frame a step, or fed by the VR stream.
pub mod Playback
pub mod Stream
pub mod Invariant
pub mod Buffers
pub mod Control
pub mod Growth
pub mod Horizon
pub mod Session
use Prim.Native.String.{String}
use grit_deploy_onboard_g.Prelude.{
  ℕ, zero, suc, ◌+◌, ◌-◌, ◌*◌, ◌^◌, Bool, true, false, not, ◌&&◌, ◌||◌, List, [], ◌∷◌, ◌++◌, map,
  min, max, ltb, leb, ◌==◌, if◌then◌else◌, Result, ok, err, diverged, require, throw, ◌>>=◌, ◌>>◌,
  at, slice, map_m, length, take, drop, set, replicate, all_of,
}
use grit_deploy_onboard_g.Floats.{Floats, ◌*F◌, ◌/F◌, ◌-F◌, float}
use grit_deploy_onboard_g.Geometry.{
  Vec3, Quat, add_vec, sub_vec, conjugate, mul_quat, normalized, rotate, yaw_quat, replace_yaw,
  slerp, rot6d,
}
use grit_deploy_onboard_g.Segment.{
  Motion, ReferenceSegment, dof, feature_dim, zip_with, concat, blend, blend_vec,
  finite_difference_features, build_segment,
}

pub record RobotState {ℓ} (F : Type ℓ) : Type ℓ where
  pub seq : ℕ
  pub receive_time_ns : ℕ
  pub q : List F
  pub dq : List F
  pub quat : Quat F
  pub gyro : Vec3 F
  pub start : Bool
  pub a : Bool
  pub b : Bool
  pub x : Bool
  pub left : Bool
  pub right : Bool
  pub lx : F
  pub ly : F
  pub rx : F
  pub ry : F

-- `VrPoseFrame` of vr_motion_client.hpp.
pub record VrPoseFrame {ℓ} (F : Type ℓ) : Type ℓ where
  pub root_position : Vec3 F
  pub root_quaternion : Quat F
  pub joint_position : List F
  pub starts_session : Bool
  pub receive_time_ns : ℕ

pub record GritPolicy {ℓ} (F : Type ℓ) : Type ℓ where
  pub motion : Motion F
  pub default_motion : Motion F
  pub ref_from_controller : List ℕ
  pub controller_from_ref : List ℕ
  pub action_scale : List F
  pub encoder_offset : List F
  pub last_action : List F
  pub history : List (List F)
  pub transition_steps : ℕ
  pub segment : ReferenceSegment F
  pub playing_motion : Bool
  pub vr_streaming : Bool
  pub vr_anchor_joint : List F
  pub vr_anchor_position : Vec3 F
  pub vr_anchor_quaternion : Quat F
  pub vr_source_position : Vec3 F
  pub vr_yaw_delta : Quat F
  pub vr_transition_count : ℕ
  pub motion_name : String
  pub motion_index : ℕ
  pub motion_count : ℕ

abbrev pub history_length : ℕ
history_length = 10

abbrev pub context_offsets : List ℕ
context_offsets = 0 ∷ 2 ∷ 3 ∷ 5 ∷ 7 ∷ 8 ∷ 10 ∷ 12 ∷ 13 ∷ []

-- `kContextOffsets.back()`.
abbrev pub last_context_offset : ℕ
last_context_offset = 13

abbrev pub high_watermark : ℕ
high_watermark = 16

abbrev pub keep_history : ℕ
keep_history = 32

-- `frames - 1` on a `size_t`.
abbrev pub last_frame : ℕ → ℕ
last_frame frames = if frames == 0 then 2 ^ 64 - 1 else frames - 1

module _ {ℓ} {F : Type ℓ} where
  unfoldable pub future_horizon : ReferenceSegment F → ℕ
  future_horizon s = if (s.frames == 0) || leb s.frames s.index then 0 else s.frames - 1 - s.index

  unfoldable pub is_standing : GritPolicy F → Bool
  is_standing p =
      not p.playing_motion
      && (not p.vr_streaming
          && (ltb 0 p.segment.frames && leb p.segment.frames (p.segment.index + 1)))

  -- `map_to_reference` and the loop over `controller_from_ref_`: gather by an index list.
  unfoldable pub gather : List F → List ℕ → Result (List F)
  gather values indices = map_m (at values) indices

  -- A full history drops its oldest sample.
  unfoldable pub append_history : List F → List F → List F
  append_history history values =
      (if length history == history_length * length values
        then drop (length values) history
        else history)
      ++ values

  unfoldable pub append_histories : List (List F) → List (List F) → List (List F)
  append_histories [] terms = []
  append_histories (h ∷ hs) [] = []
  append_histories (h ∷ hs) (t ∷ ts) = append_history h t ∷ append_histories hs ts

  -- `std::copy` of `values` over `xs`, from index `i` on.
  unfoldable pub overwrite : List F → ℕ → List F → List F
  overwrite xs i values = take i xs ++ (values ++ drop (i + length values) xs)

  -- Drops all but 32 frames of what has been played.
  unfoldable pub trim : ReferenceSegment F → ReferenceSegment F
  trim s =
      let n = s.index - keep_history in
      if ltb keep_history s.index
      then record s {
        joints = drop (n * dof) s.joints;
        positions = drop n s.positions;
        quaternions = drop n s.quaternions;
        frames = s.frames - n;
        index = s.index - n;
      }
      else s

  unfoldable pub select_motion : Motion F → String → ℕ → ℕ → GritPolicy F → GritPolicy F
  select_motion motion name index count p = record p {
    motion = motion;
    motion_name = name;
    motion_index = index;
    motion_count = count;
  }
