-- ===== src/Grit/Playback.antt =====
-- The operations of `GritPolicy` (g1_npz_policy.cpp) that play a segment: `initialize_default`,
-- `play_motion`, `return_default`, `follow_robot_yaw_while_holding_default`, `push_proprio`, `step`.
use grit_deploy_onboard_g.Prelude.{
  ℕ, zero, suc, ◌+◌, ◌-◌, ◌*◌, Bool, true, false, ◌||◌, List, [], ◌∷◌, ◌++◌, min, ltb, ◌==◌,
  if◌then◌else◌, Result, ok, require, ◌>>=◌, ◌>>◌, at, slice, map_m, length, set, replicate, all_of,
}
use grit_deploy_onboard_g.Floats.{Floats, float}
use grit_deploy_onboard_g.Geometry.{conjugate, mul_quat, rotate, replace_yaw, rot6d}
use grit_deploy_onboard_g.Segment.{
  Motion, ReferenceSegment, dof, feature_dim, zip_with, concat, vec_values, build_segment,
}
use grit_deploy_onboard_g.Grit.{
  RobotState, GritPolicy, history_length, context_offsets, last_frame, gather, append_histories,
  overwrite,
}

module _ {ℓ} {F : Type ℓ} ⦃fl : Floats F⦄ where
  -- The common part of `play_motion` and `return_default`: a new segment from the present frame.
  unfoldable pub restart : Motion F → Bool → GritPolicy F → Result (GritPolicy F)
  restart motion playing p = do
    let s = p.segment
    let index = min s.index (last_frame s.frames)
    anchor ← slice s.joints (index * dof) dof
    position ← at s.positions index
    quaternion ← at s.quaternions index
    segment ← build_segment motion anchor position quaternion p.transition_steps
    ok (record p { segment = segment; playing_motion = playing; vr_streaming = false })

  unfoldable pub return_default : GritPolicy F → Result (GritPolicy F)
  unfolding restart
  return_default p = restart p.default_motion false p

  -- While the default pose is held, its last frame turns with the robot and is at rest.
  unfoldable pub follow_robot_yaw_while_holding_default :
      RobotState F → GritPolicy F → Result (GritPolicy F)
  follow_robot_yaw_while_holding_default state p = do
    let s = p.segment
    let index = s.frames - 1
    let follow = do
      held ← at s.quaternions index
      turned ← replace_yaw held state.quat
      orientation ← rot6d turned
      let rest = replicate dof (float 0) ++ (orientation ++ replicate 6 (float 0))
      ok (record p {
        segment = record s {
          quaternions = set s.quaternions index turned;
          features = overwrite s.features (index * feature_dim + dof) rest;
        };
      })
    if p.playing_motion || (p.vr_streaming || ((s.frames == 0) || ltb (s.index + 1) s.frames))
        then ok p
        else follow

  unfoldable pub play_motion : RobotState F → GritPolicy F → Result (GritPolicy F)
  unfolding restart
  play_motion state p = do
    followed ← follow_robot_yaw_while_holding_default state p
    restart followed.motion true followed

  -- The six terms of one observation, oldest sample dropped where the history is full.
  unfoldable pub push_proprio : RobotState F → GritPolicy F → Result (GritPolicy F)
  push_proprio state p = do
    let s = p.segment
    gravity ←
        rotate (conjugate state.quat) (record { x = float 0; y = float 0; z = fl.neg (float 1) })
    reference ← at s.quaternions (min s.index (last_frame s.frames))
    relative ← mul_quat (conjugate state.quat) reference
    orientation ← rot6d relative
    q_ref ← gather state.q p.ref_from_controller
    dq_ref ← gather state.dq p.ref_from_controller
    let terms =
        vec_values state.gyro
        ∷ vec_values gravity
        ∷ orientation
        ∷ zip_with fl.sub q_ref p.default_motion.joint_pos
        ∷ dq_ref
        ∷ p.last_action
        ∷ []
    ok (record p { history = append_histories p.history terms })

  -- `for (size_t i = 0; i < n; ++i) push_proprio(state);`
  unfoldable pub push_proprio_times : ℕ → RobotState F → GritPolicy F → Result (GritPolicy F)
  push_proprio_times zero state p = ok p
  push_proprio_times (suc n) state p = do
    pushed ← push_proprio state p
    push_proprio_times n state pushed

  unfoldable pub initialize_default : RobotState F → GritPolicy F → Result (GritPolicy F)
  initialize_default state p = do
    anchor_joint ← gather state.q p.ref_from_controller
    root ← at p.default_motion.root_pos 0
    segment ← build_segment p.default_motion anchor_joint root state.quat p.transition_steps
    push_proprio_times history_length state (record p {
      segment = segment;
      playing_motion = false;
      vr_streaming = false;
      last_action = replicate dof (float 0);
      history = replicate 6 [];
    })

  -- The frame that the step moves to; a motion that has been played returns to the default pose.
  unfoldable pub advance : GritPolicy F → Result (GritPolicy F)
  advance p =
      let s = p.segment in
      let next = ok (record p { segment = record s { index = s.index + 1 } }) in
      if ltb (s.index + 1) s.frames
      then next
      else if p.playing_motion
      then return_default p
      else ok p

  -- The feature rows at the context offsets, held at the last frame.
  unfoldable pub reference_context : ReferenceSegment F → Result (List F)
  reference_context s = do
    rows ←
        map_m
          (λ offset.
            slice s.features (min (s.index + offset) (last_frame s.frames) * feature_dim)
              feature_dim)
          context_offsets
    ok (concat rows)

  -- ONNX Runtime evaluates the model on the reference context and the proprioception.
  module _ (run : List F → List F → Result (List F)) where
    -- `InferenceModel::infer`.
    unfoldable pub infer : List F → List F → Result (List F)
    infer reference proprio = do
      actions ← run reference proprio
      require (length actions == dof) "ONNX actions output must contain 29 values"
      ok actions

    unfoldable pub step : RobotState F → GritPolicy F → Result (GritPolicy F × List F)
    unfolding infer
    step state p = do
      advanced ← advance p
      followed ← follow_robot_yaw_while_holding_default state advanced
      pushed ← push_proprio state followed
      reference ← reference_context pushed.segment
      raw ← infer reference (concat pushed.history)
      let scaled =
          zip_with fl.add (zip_with fl.mul raw pushed.action_scale) pushed.default_motion.joint_pos
      let target_ref = zip_with fl.sub scaled pushed.encoder_offset
      require (all_of fl.isfinite target_ref) "ONNX produced a non-finite action"
      target_controller ← gather target_ref pushed.controller_from_ref
      ok (record pushed { last_action = raw }, target_controller)
