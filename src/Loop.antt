-- ===== src/Loop.antt =====
-- The control loop of the policy process: `main` of g1_sim2real/src/g1_npz_policy.cpp, from its state
-- to its exits.
use Prim.Native.String.{String}
use grit_deploy_onboard_g.Prelude.{ℕ, Bool, Option, List, Result}
use grit_deploy_onboard_g.Segment.{Motion}
use grit_deploy_onboard_g.Grit.{RobotState, VrPoseFrame, GritPolicy}
use grit_deploy_onboard_g.Locomotion.{LocomotionPolicy}
use grit_deploy_onboard_g.Transport.{Transport}
pub mod Monad
pub mod Polling
pub mod WholeBody
pub mod Modes
pub mod Invariant
pub mod Quiet
pub mod Session
pub mod Stream
pub mod Rounds
pub mod Turns
pub mod Drives
pub mod Iterate
pub mod Runs
pub mod Surroundings

pub data WholeBodyMode : Type 0 where
  vr_tracking npz_playback : WholeBodyMode

pub data Mode : Type 0 where
  zero_torque move_to_default locomotion_blend locomotion locomotion_stopping : Mode
  whole_body_blend whole_body whole_body_switching whole_body_stopping : Mode

-- What `main` sets up before the loop and never changes. The lists of gains and joints have 29 values.
pub record LoopConfig {ℓ} (F : Type ℓ) : Type ℓ where
  pub vr_client : Bool
  pub motion_count : ℕ
  pub motion_name : ℕ → String
  pub voice_label : ℕ → String
  pub vr_timeout_ms : ℕ
  pub init_q : List F
  pub whole_body_kp : List F
  pub whole_body_kd : List F
  pub locomotion_kp : List F
  pub locomotion_kd : List F

-- `VrOperatorInput` of vr_motion_client.hpp.
pub record VrOperatorInput {ℓ} (F : Type ℓ) : Type ℓ where
  pub activate_or_default : Bool
  pub start_tracking : Bool
  pub toggle_mode : Bool
  pub stop_control : Bool
  pub sticks_valid : Bool
  pub left_x : F
  pub left_y : F
  pub right_x : F

-- What one round of the loop meets: the stop flag at its tests, `transport.receive` with the state as it
-- leaves it, the VR client's answers, the clock, and the loader's result where it is ready.
pub record Inputs {ℓ} (F : Type ℓ) : Type ℓ where
  pub stop_signal : Bool
  pub stop_after_receive : Bool
  pub received : RobotState F × Result Bool
  pub vr_input : VrOperatorInput F
  pub vr_frames : List (VrPoseFrame F)
  pub last_pose_ns : ℕ
  pub current_ns : ℕ
  pub request_sent : Bool
  pub load_done : Option (Result (Motion F))

-- The local variables of `main`. `future_valid` is `pending_motion_future.valid()`; `requests` are the
-- pose requests that the VR client has sent, the newest first.
pub record Loop {ℓ} (F : Type ℓ) : Type ℓ where
  pub mode : Mode
  pub whole_body_mode : WholeBodyMode
  pub state : RobotState F
  pub grit : GritPolicy F
  pub loco : LocomotionPolicy F
  pub transport : Transport F
  pub move_start : List F
  pub blend_start : List F
  pub blend_kp_start : List F
  pub blend_kd_start : List F
  pub last_target : List F
  pub move_step : ℕ
  pub mode_step : ℕ
  pub previous_start : Bool
  pub previous_a : Bool
  pub previous_b : Bool
  pub previous_left : Bool
  pub previous_right : Bool
  pub pico_motion_switch_armed : Bool
  pub neutral_wait_logged : Bool
  pub vr_start_pending : Bool
  pub vr_request_inflight : Bool
  pub vr_request_time_ns : ℕ
  pub vr_timeout_logged : Bool
  pub selected_motion_index : ℕ
  pub pending_motion_index : Option ℕ
  pub future_valid : Bool
  pub loaded_motion : Option (Motion F)
  pub damping_requested : Bool
  pub requests : List Bool

abbrev pub move_steps : ℕ
move_steps = 100

abbrev pub blend_steps : ℕ
blend_steps = 50

abbrev pub locomotion_stop_steps : ℕ
locomotion_stop_steps = 50
