-- ===== src/Locomotion.antt =====
-- The locomotion policy: g1_sim2real/src/g1_npz_policy.cpp, `LocomotionPolicy` and
-- `LocomotionInferenceModel::infer`. Its observation holds four frames of 96 values. A throw ends the
-- program, so it gives no new state. `limit` is the clamp on each value of a frame and of an action.
pub mod Control
use grit_deploy_onboard_g.Prelude.{
  ℕ, zero, suc, ◌*◌, Bool, true, false, not, ◌&&◌, Option, none, some, List, [], ◌∷◌, ◌++◌, map,
  length, drop, replicate, ◌==◌, if◌then◌else◌, all_of, Result, ok, require, ◌>>=◌, ◌>>◌,
}
use grit_deploy_onboard_g.Floats.{Floats, ◌+F◌, ◌*F◌, ◌-F◌, ◌<F◌, ◌≤F◌, float, clamp}
use grit_deploy_onboard_g.Geometry.{Vec3, conjugate, rotate}
use grit_deploy_onboard_g.Segment.{Motion, dof, zip_with, vec_values}
use grit_deploy_onboard_g.Grit.{RobotState, gather}

abbrev pub loco_history_length : ℕ
loco_history_length = 4

abbrev pub loco_frame_dim : ℕ
loco_frame_dim = 96

abbrev pub loco_observation_dim : ℕ
loco_observation_dim = 384

pub record StickInput {ℓ} (F : Type ℓ) : Type ℓ where
  pub left_x : F
  pub left_y : F
  pub right_x : F

pub record LocomotionPolicy {ℓ} (F : Type ℓ) : Type ℓ where
  pub default_motion : Motion F
  pub ref_from_controller : List ℕ
  pub controller_from_ref : List ℕ
  pub action_scale : List F
  pub last_action : List F
  pub previous_command : Vec3 F
  pub history : List F

-- The new history of `reset`.
unfoldable pub repeat_frame {ℓ} : {F : Type ℓ} → ℕ → List F → List F
repeat_frame zero frame = []
repeat_frame (suc n) frame = frame ++ repeat_frame n frame

module _ {ℓ} {F : Type ℓ} ⦃fl : Floats F⦄ where
  abbrev pub dead_zone : F
  dead_zone = fl.decimal 2 1

  abbrev pub command_smoothing : F
  command_smoothing = float 0

  abbrev pub no_command : Vec3 F
  no_command = record { x = float 0; y = float 0; z = float 0 }

  abbrev pub in_dead_zone : F → Bool
  in_dead_zone value = fl.abs value ≤F dead_zone

  unfoldable pub pico_neutral : StickInput F → Bool
  pico_neutral sticks =
      in_dead_zone sticks.left_x && (in_dead_zone sticks.left_y && in_dead_zone sticks.right_x)

  unfoldable pub sticks_neutral : RobotState F → Option (StickInput F) → Bool
  sticks_neutral state none =
      in_dead_zone state.lx && (in_dead_zone state.ly && in_dead_zone state.rx)
  sticks_neutral state (some sticks) =
      in_dead_zone state.lx
      && (in_dead_zone state.ly && in_dead_zone state.rx)
      && pico_neutral sticks

  -- One axis: nothing within the dead zone, and a scale on either side of it.
  unfoldable pub axis_command : F → F → F → F
  axis_command user backward forward =
      if user <F fl.neg dead_zone
      then user *F backward
      else if dead_zone <F user
      then user *F forward
      else float 0

  abbrev pub smoothed : F → F → F
  smoothed previous command =
      previous *F command_smoothing +F command *F (float 1 -F command_smoothing)

  -- The command is smoothed and kept.
  unfoldable pub command_from_user_axes :
      F → F → F → LocomotionPolicy F → LocomotionPolicy F × Vec3 F
  command_from_user_axes left_x left_y right_x p =
      let user_lx = clamp left_x (fl.neg (float 1)) (float 1) in
      let user_ly = clamp left_y (fl.neg (float 1)) (float 1) in
      let user_rx = clamp right_x (fl.neg (float 1)) (float 1) in
      let command : Vec3 F = record {
        x = smoothed p.previous_command.x (axis_command user_ly (fl.decimal 8 1) (float 1));
        y = smoothed p.previous_command.y (axis_command user_lx (float 1) (float 1));
        z =
            smoothed p.previous_command.z
              (axis_command user_rx (fl.decimal 314 2) (fl.decimal 314 2));
      } in
      (record p { previous_command = command }, command)

  unfoldable pub command_from_remote :
      RobotState F → LocomotionPolicy F → LocomotionPolicy F × Vec3 F
  command_from_remote state p =
      command_from_user_axes (fl.neg state.lx) state.ly (fl.neg state.rx) p

  -- The PICO's sticks where they are moved, and the remote's otherwise.
  unfoldable pub choose_command :
      RobotState F → Option (StickInput F) → LocomotionPolicy F → LocomotionPolicy F × Vec3 F
  choose_command state none p = command_from_remote state p
  choose_command state (some sticks) p =
      if not (pico_neutral sticks)
      then command_from_user_axes (fl.neg sticks.left_x) sticks.left_y (fl.neg sticks.right_x) p
      else command_from_remote state p

  abbrev pub limit : F → F
  limit value = clamp value (fl.neg (float 100)) (float 100)

  unfoldable pub make_frame : RobotState F → Vec3 F → LocomotionPolicy F → Result (List F)
  make_frame state command p = do
    gravity ←
        rotate (conjugate state.quat) (record { x = float 0; y = float 0; z = fl.neg (float 1) })
    q_ref ← gather state.q p.ref_from_controller
    dq_ref ← gather state.dq p.ref_from_controller
    let frame =
        vec_values state.gyro
        ++ (vec_values gravity
            ++ (vec_values command
                ++ (zip_with fl.sub q_ref p.default_motion.joint_pos ++ (dq_ref ++ p.last_action))))
    require (length frame == loco_frame_dim) "Locomotion observation frame size mismatch"
    ok (map limit frame)

  unfoldable pub reset : RobotState F → LocomotionPolicy F → Result (LocomotionPolicy F)
  reset state p = do
    let cleared = record p {
      last_action = replicate dof (float 0);
      previous_command = no_command;
      history = [];
    }
    frame ← make_frame state no_command cleared
    ok (record cleared { history = repeat_frame loco_history_length frame })

  -- ONNX Runtime evaluates the model on the observation.
  module _ (run : List F → Result (List F)) where
    unfoldable pub infer_locomotion : List F → Result (List F)
    infer_locomotion observation = do
      actions ← run observation
      require (length actions == dof) "Locomotion ONNX actions output must contain 29 values"
      ok actions

    unfoldable pub step :
        RobotState F
        → Bool
        → Option (StickInput F)
        → LocomotionPolicy F
        → Result (LocomotionPolicy F × List F)
    step state force_zero_command pico_sticks p = do
      let commanded =
          if force_zero_command then (p, no_command) else choose_command state pico_sticks p
      frame ← make_frame state commanded.1 commanded.0
      require (length p.history == loco_observation_dim) "Locomotion history was not initialized"
      let history = drop loco_frame_dim p.history ++ frame
      inferred ← infer_locomotion history
      let raw = map limit inferred
      require (all_of fl.isfinite raw) "Locomotion ONNX produced a non-finite action"
      let target_ref =
          zip_with fl.add (zip_with fl.mul raw p.action_scale) p.default_motion.joint_pos
      target_controller ← gather target_ref p.controller_from_ref
      ok (record (commanded.0) { history = history; last_action = raw }, target_controller)
