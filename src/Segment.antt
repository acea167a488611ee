-- ===== src/Segment.antt =====
-- Motions and reference segments: g1_sim2real/src/g1_npz_policy.cpp, `Motion`, `ReferenceSegment`,
-- `finite_difference_features` and `build_segment`. Joint and feature arrays are flat, as in the
-- source: frame `t` starts at index `t * 29` and `t * 70`.
pub mod Shape
pub mod Transition
pub mod Build
use grit_deploy_onboard_g.Prelude.{
  ℕ, zero, suc, ◌+◌, ◌-◌, ◌*◌, ◌/◌, ◌%◌, ◌^◌, leb, err, out_of_bounds, require, ◌>>◌, Bool, ◌||◌,
  List, [], ◌∷◌, ◌++◌, map, min, ltb, ◌==◌, if◌then◌else◌, Result, ok, ◌>>=◌, at, slice, map_m,
  take, length,
}
use grit_deploy_onboard_g.Floats.{Floats, ◌+F◌, ◌-F◌, ◌*F◌, ◌/F◌, float}
use grit_deploy_onboard_g.Geometry.{
  Vec3, Quat, vec3_zero, add_vec, sub_vec, scale_vec, conjugate, mul_quat, rotate, yaw_quat, slerp,
  rot6d, rotation_vector,
}

abbrev pub dof : ℕ
dof = 29

abbrev pub feature_dim : ℕ
feature_dim = 70

pub record Motion {ℓ} (F : Type ℓ) : Type ℓ where
  pub frames : ℕ
  pub fps : F
  pub joint_pos : List F
  pub joint_vel : List F
  pub root_pos : List (Vec3 F)
  pub root_quat : List (Quat F)
  pub root_lin_vel_b : List (Vec3 F)
  pub root_ang_vel_b : List (Vec3 F)
  pub exported_velocities : Bool

pub record ReferenceSegment {ℓ} (F : Type ℓ) : Type ℓ where
  pub frames : ℕ
  pub index : ℕ
  pub joints : List F
  pub positions : List (Vec3 F)
  pub quaternions : List (Quat F)
  pub features : List F

-- The numbers below `n`: the rounds of `for (size_t t = 0; t < n; ++t)`.
unfoldable pub below_from : ℕ → ℕ → List ℕ
below_from t zero = []
below_from t (suc n) = t ∷ below_from (t + 1) n

unfoldable pub below : ℕ → List ℕ
unfolding below_from
below n = below_from 0 n

-- `v[i * scale] op w[i]` for each joint: the loops over `kDof` on two arrays of that size.
unfoldable pub zip_with {ℓ} : {A : Type ℓ} → (A → A → A) → List A → List A → List A
zip_with f [] ys = []
zip_with f (x ∷ xs) [] = []
zip_with f (x ∷ xs) (y ∷ ys) = f x y ∷ zip_with f xs ys

unfoldable pub concat {ℓ} : {A : Type ℓ} → List (List A) → List A
concat [] = []
concat (xs ∷ xss) = xs ++ concat xss

-- An `int` of 32 bits is written as the number plus 2^31, so that its order is that of ℕ. Its sums
-- are taken to wrap.
unfoldable pub int_of : ℕ → ℕ
int_of n = (n + 2 ^ 31) % 2 ^ 32

-- `static_cast<size_t>(std::clamp(value, 0, static_cast<int>(frames) - 1))`, whose sums wrap.
unfoldable pub clamp_index : ℕ → ℕ → ℕ
unfolding int_of
clamp_index frames value =
    let high = (int_of frames + (2 ^ 32 - 1)) % 2 ^ 32 in
    let held = if ltb value (2 ^ 31) then 2 ^ 31 else if ltb high value then high else value in
    (held + (2 ^ 64 - 2 ^ 31)) % 2 ^ 64

-- `sample_index(t, -1)` and `sample_index(t, 1)`: the neighbours of frame `t`, held at the ends.
unfoldable pub sample_before : ℕ → ℕ → ℕ
unfolding clamp_index
sample_before frames t = clamp_index frames ((int_of t + (2 ^ 32 - 1)) % 2 ^ 32)

unfoldable pub sample_after : ℕ → ℕ → ℕ
unfolding clamp_index
sample_after frames t = clamp_index frames ((int_of t + 1) % 2 ^ 32)

-- `std::vector<T>::max_size()` for elements of four, twelve and sixteen bytes.
abbrev pub max_floats : ℕ
max_floats = 2 ^ 61 - 1

abbrev pub max_vecs : ℕ
max_vecs = (2 ^ 63 - 1) / 12

abbrev pub max_quats : ℕ
max_quats = 2 ^ 59 - 1

module _ {ℓ} {F : Type ℓ} ⦃fl : Floats F⦄ where
  unfoldable pub half : F
  half = fl.decimal 5 1

  unfoldable pub vec_values : Vec3 F → List F
  vec_values v = v.x ∷ v.y ∷ v.z ∷ []

  -- The angular velocity at frame `t`: one-sided at the ends, central between them.
  unfoldable pub angular_velocity : List (Quat F) → F → ℕ → ℕ → Result (Vec3 F)
  angular_velocity quaternions fps frames t = do
    here ← at quaternions t
    before ← at quaternions (sample_before frames t)
    after ← at quaternions (sample_after frames t)
    let single = do
      step ← mul_quat (conjugate (if t == 0 then here else before)) (if t == 0 then after else here)
      turn ← rotation_vector step
      ok (scale_vec turn fps)
    let central = do
      ahead ← mul_quat (conjugate here) after
      forward ← rotation_vector ahead
      behind ← mul_quat (conjugate here) before
      backward ← rotation_vector behind
      ok (scale_vec (sub_vec forward backward) (half *F fps))
    let moving = if (t == 0) || ((t + 1) == frames) then single else central
    if ltb 1 frames then moving else ok vec3_zero

  -- One row: 29 joint positions, 29 joint velocities, orientation, linear and angular velocity.
  unfoldable pub feature_row : List F → List (Vec3 F) → List (Quat F) → F → ℕ → ℕ → Result (List F)
  unfolding half vec_values angular_velocity
  feature_row joints positions quaternions fps frames t = do
    let before = sample_before frames t
    let after = sample_after frames t
    let scale = if (t == 0) || ((t + 1) == frames) then fps else half *F fps
    now ← slice joints (t * dof) dof
    joints_after ← slice joints (after * dof) dof
    joints_before ← slice joints (before * dof) dof
    here ← at quaternions t
    orientation ← rot6d here
    position_after ← at positions after
    position_before ← at positions before
    velocity_b ← rotate (conjugate here) (scale_vec (sub_vec position_after position_before) scale)
    angular ← angular_velocity quaternions fps frames t
    ok (
        now
        ++ (map (λ d. d *F scale) (zip_with fl.sub joints_after joints_before)
            ++ (orientation ++ (vec_values velocity_b ++ vec_values angular))))

  unfoldable pub finite_difference_features :
      List F → List (Vec3 F) → List (Quat F) → F → Result (List F)
  unfolding feature_row
  finite_difference_features joints positions quaternions fps = do
    let frames = length positions
    require (leb (frames * feature_dim % 2 ^ 64) max_floats)
        "cannot create std::vector larger than max_size()"
    rows ← map_m (feature_row joints positions quaternions fps frames) (below frames)
    ok (concat rows)

  -- `a * (1 - alpha) + b * alpha`, on numbers, joint lists and positions.
  abbrev pub blend : F → F → F → F
  blend alpha a b = a *F (float 1 -F alpha) +F b *F alpha

  pub blend_vec : F → Vec3 F → Vec3 F → Vec3 F
  blend_vec alpha a b = add_vec (scale_vec a (float 1 -F alpha)) (scale_vec b alpha)

  -- Frame `t` of the source motion, turned by `yaw_delta` and moved to the anchor; its height stays.
  unfoldable pub align_frame : Quat F → Vec3 F → Vec3 F → Motion F → ℕ → Result (Vec3 F × Quat F)
  align_frame yaw_delta anchor_pos first source t = do
    position ← at source.root_pos t
    quaternion ← at source.root_quat t
    turned ← rotate yaw_delta (sub_vec position first)
    aligned ← mul_quat yaw_delta quaternion
    ok (record (add_vec turned anchor_pos) { z = position.z }, aligned)

  -- Frame `t` of the `steps` transition frames from the anchor to the first aligned frame.
  unfoldable pub transition_frame :
      List F
      → Vec3 F
      → Quat F
      → List F
      → Vec3 F × Quat F
      → ℕ
      → ℕ
      → Result (List F × Vec3 F × Quat F)
  transition_frame anchor_joint anchor_pos anchor_quat first_joints first steps t = do
    let alpha = float (t + 1) /F float ((steps + 1) % 2 ^ 64)
    quaternion ← slerp anchor_quat first.1 alpha
    ok (
      zip_with (blend alpha) anchor_joint first_joints,
      blend_vec alpha anchor_pos first.0,
      quaternion,
    )

  -- One row of an exported motion, with the velocities that the file holds.
  unfoldable pub exported_row : Motion F → List (Quat F) → ℕ → Result (List F)
  unfolding vec_values
  exported_row source aligned_quat t = do
    joint_pos ← slice source.joint_pos (t * dof) dof
    joint_vel ← slice source.joint_vel (t * dof) dof
    quaternion ← at aligned_quat t
    orientation ← rot6d quaternion
    linear ← at source.root_lin_vel_b t
    angular ← at source.root_ang_vel_b t
    ok (joint_pos ++ (joint_vel ++ (orientation ++ (vec_values linear ++ vec_values angular))))

  -- The features of a segment whose first `steps` frames are the transition.
  unfoldable pub segment_features :
      Motion F → List F → List (Vec3 F) → List (Quat F) → List (Quat F) → ℕ → Result (List F)
  segment_features source joints positions quaternions aligned_quat steps = do
    let estimated = finite_difference_features joints positions quaternions source.fps
    let exported = do
      require (leb (length positions * feature_dim % 2 ^ 64) max_floats) "vector::_M_default_append"
      prefix_joints ← slice joints 0 (steps * dof)
      prefix ←
          finite_difference_features prefix_joints (take steps positions) (take steps quaternions)
            source.fps
      rows ← map_m (exported_row source aligned_quat) (below source.frames)
      ok (prefix ++ concat rows)
    if source.exported_velocities then exported else estimated

  -- The frame count wraps at 2^64. A frame past it, or a copy past the end, would be written out of
  -- bounds.
  unfoldable pub build_segment :
      Motion F → List F → Vec3 F → Quat F → ℕ → Result (ReferenceSegment F)
  unfolding align_frame transition_frame segment_features exported_row
  build_segment source anchor_joint anchor_pos anchor_quat steps = do
    anchor_yaw ← yaw_quat anchor_quat
    first_quat ← at source.root_quat 0
    source_yaw ← yaw_quat first_quat
    yaw_delta ← mul_quat anchor_yaw (conjugate source_yaw)
    first_pos ← at source.root_pos 0
    aligned ← map_m (align_frame yaw_delta anchor_pos first_pos source) (below source.frames)
    first ← at aligned 0
    first_joints ← slice source.joint_pos 0 dof
    let frames = (steps + source.frames) % 2 ^ 64
    require (leb (frames * dof % 2 ^ 64) max_floats) "vector::_M_default_append"
    require (leb frames max_vecs) "vector::_M_default_append"
    require (leb frames max_quats) "vector::_M_default_append"
    transition ←
        map_m
          (λ t.
            if ltb t frames
            then transition_frame anchor_joint anchor_pos anchor_quat first_joints first steps t
            else err out_of_bounds)
          (below steps)
    if leb (steps + source.frames) frames then ok tt else err out_of_bounds
    let joints = concat (map (λ f. f.0) transition) ++ source.joint_pos
    let positions = map (λ f. f.1) transition ++ map (λ a. a.0) aligned
    let quaternions = map (λ f. f.2) transition ++ map (λ a. a.1) aligned
    features ← segment_features source joints positions quaternions (map (λ a. a.1) aligned) steps
    ok (record {
      frames = frames;
      index = 0;
      joints = joints;
      positions = positions;
      quaternions = quaternions;
      features = features;
    })
