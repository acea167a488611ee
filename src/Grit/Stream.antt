-- ===== src/Grit/Stream.antt =====
-- The operations of `GritPolicy` (g1_npz_policy.cpp) that feed the segment from the VR stream:
-- `append_stream_frame`, `append_vr_frame`, `start_vr_session`, `stop_vr`.
use grit_deploy_onboard_g.Prelude.{
  ℕ, zero, suc, ◌+◌, ◌*◌, Bool, true, false, not, List, [], ◌∷◌, ◌++◌, min, max, ltb, leb, ◌==◌,
  if◌then◌else◌, Result, ok, err, diverged, require, ◌>>=◌, ◌>>◌, at, slice, length,
}
use grit_deploy_onboard_g.Floats.{Floats, ◌/F◌, float}
use grit_deploy_onboard_g.Geometry.{
  Vec3, Quat, add_vec, sub_vec, conjugate, mul_quat, normalized, rotate, yaw_quat, slerp,
}
use grit_deploy_onboard_g.Segment.{dof, zip_with, blend, blend_vec, finite_difference_features}
use grit_deploy_onboard_g.Grit.{
  VrPoseFrame, GritPolicy, last_context_offset, high_watermark, last_frame, future_horizon, trim,
}
use grit_deploy_onboard_g.Grit.Playback.{return_default}

module _ {ℓ} {F : Type ℓ} ⦃fl : Floats F⦄ where
  unfoldable pub append_stream_frame :
      List F → Vec3 F → Quat F → GritPolicy F → Result (GritPolicy F)
  append_stream_frame joints position quaternion p = do
    require (length joints == dof) "VR joint frame must contain 29 values"
    let s = trim p.segment
    unit ← normalized quaternion
    let all_joints = s.joints ++ joints
    let all_positions = s.positions ++ (position ∷ [])
    let all_quaternions = s.quaternions ++ (unit ∷ [])
    features ← finite_difference_features all_joints all_positions all_quaternions (float 50)
    ok (record p {
      segment = record s {
        frames = s.frames + 1;
        joints = all_joints;
        positions = all_positions;
        quaternions = all_quaternions;
        features = features;
      };
    })

  -- The pose of a VR frame in the robot's world, and the frame that is blended from the anchor.
  unfoldable pub align_vr : VrPoseFrame F → GritPolicy F → Result (Vec3 F × Quat F)
  align_vr frame p = do
    source_quaternion ← normalized frame.root_quaternion
    turned ← rotate p.vr_yaw_delta (sub_vec frame.root_position p.vr_source_position)
    aligned_quaternion ← mul_quat p.vr_yaw_delta source_quaternion
    ok (add_vec turned p.vr_anchor_position, aligned_quaternion)

  -- `vr_transition_count_ < transition_steps_`: the count goes up and the pose is blended.
  unfoldable pub blend_vr :
      VrPoseFrame F
      → Vec3 F × Quat F
      → GritPolicy F
      → Result (GritPolicy F × List F × Vec3 F × Quat F)
  blend_vr frame pose p = do
    let count = p.vr_transition_count + 1
    let alpha = float count /F float (max 1 p.transition_steps)
    quaternion ← slerp p.vr_anchor_quaternion pose.1 alpha
    ok (
      record p { vr_transition_count = count },
      zip_with (blend alpha) p.vr_anchor_joint frame.joint_position,
      blend_vec alpha p.vr_anchor_position pose.0,
      quaternion,
    )

  unfoldable pub accept_vr_frame : VrPoseFrame F → GritPolicy F → Result (GritPolicy F)
  accept_vr_frame frame p = do
    pose ← align_vr frame p
    let blended = blend_vr frame pose p
    let plain = ok (p, frame.joint_position, pose.0, pose.1)
    placed ← if ltb p.vr_transition_count p.transition_steps then blended else plain
    append_stream_frame placed.1 placed.2 placed.3 placed.0

  -- The flag says whether the frame was taken.
  unfoldable pub append_vr_frame : VrPoseFrame F → GritPolicy F → Result (GritPolicy F × Bool)
  append_vr_frame frame p = do
    let accepted = do q ← accept_vr_frame frame p; ok (q, true)
    if not p.vr_streaming
        then ok (p, false)
        else if leb high_watermark (future_horizon p.segment)
        then ok (p, false)
        else accepted

  -- `while (future_horizon() < kContextOffsets.back()) append_stream_frame(anchor...)`.
  unfoldable pub pad_horizon : ℕ → GritPolicy F → Result (GritPolicy F)
  pad_horizon zero p = err diverged
  pad_horizon (suc fuel) p = do
    let more = do
      q ← append_stream_frame p.vr_anchor_joint p.vr_anchor_position p.vr_anchor_quaternion p
      pad_horizon fuel q
    if ltb (future_horizon p.segment) last_context_offset then more else ok p

  -- The policy anchored at its present frame, before the padding.
  unfoldable pub anchor_session : VrPoseFrame F → GritPolicy F → Result (GritPolicy F)
  anchor_session first_frame p = do
    let s = p.segment
    let index = min s.index (last_frame s.frames)
    anchor_joint ← slice s.joints (index * dof) dof
    anchor_position ← at s.positions index
    anchor_quaternion ← at s.quaternions index
    source_quaternion ← normalized first_frame.root_quaternion
    anchor_yaw ← yaw_quat anchor_quaternion
    source_yaw ← yaw_quat source_quaternion
    yaw_delta ← mul_quat anchor_yaw (conjugate source_yaw)
    ok (record p {
      vr_anchor_joint = anchor_joint;
      vr_anchor_position = anchor_position;
      vr_anchor_quaternion = anchor_quaternion;
      vr_source_position = first_frame.root_position;
      vr_yaw_delta = yaw_delta;
      vr_transition_count = 0;
      playing_motion = false;
      vr_streaming = true;
    })

  unfoldable pub start_vr_session : VrPoseFrame F → GritPolicy F → Result (GritPolicy F)
  start_vr_session first_frame p = do
    require (not (p.segment.frames == 0)) "Cannot start VR without a reference pose"
    anchored ← anchor_session first_frame p
    padded ← pad_horizon (last_context_offset + 1) anchored
    appended ← append_vr_frame first_frame padded
    ok appended.0

  unfoldable pub stop_vr : GritPolicy F → Result (GritPolicy F)
  stop_vr p =
      if not p.vr_streaming then ok p else return_default (record p { vr_streaming = false })
