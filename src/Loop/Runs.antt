-- ===== src/Loop/Runs.antt =====
-- The runs of the control loop and the exits of the process (g1_sim2real/src/g1_npz_policy.cpp, `main`):
-- the loop's test, the code behind it, and the two exception handlers.
pub mod Damped
pub mod Arrival
pub mod Start
use grit_deploy_onboard_g.Prelude.{
  ℕ, Bool, true, false, ◌||◌, Option, none, List, [], ◌∷◌, replicate, if◌then◌else◌, Result, ok,
  err, runtime_error, out_of_bounds, diverged,
}
use grit_deploy_onboard_g.Floats.{Floats, float}
use grit_deploy_onboard_g.Segment.{dof}
use grit_deploy_onboard_g.Grit.{RobotState, GritPolicy}
use grit_deploy_onboard_g.Locomotion.{LocomotionPolicy}
use grit_deploy_onboard_g.Transport.{Command, Transport}
use grit_deploy_onboard_g.Loop.{
  WholeBodyMode, vr_tracking, npz_playback, Mode, LoopConfig, Inputs, Loop,
}
use grit_deploy_onboard_g.Loop.Modes.{Turn, goes_on, leaves, send_damping, iterate}

-- Where the process stands: in the loop, at its end with the code of `main`, or at an access that C++
-- leaves undefined.
pub data Phase : Type 0 where
  running undefined : Phase
  exited : ℕ → Phase

module _ {ℓ} {F : Type ℓ} ⦃fl : Floats F⦄ where
  -- The variables as `main` declares them.
  abbrev pub start_loop :
      LoopConfig F → RobotState F → GritPolicy F → LocomotionPolicy F → Transport F → Loop F
  start_loop cfg state grit loco transport = record {
    mode = Mode.zero_torque;
    whole_body_mode = if cfg.vr_client then vr_tracking else npz_playback;
    state = state;
    grit = grit;
    loco = loco;
    transport = transport;
    move_start = [];
    blend_start = replicate dof (float 0);
    blend_kp_start = cfg.locomotion_kp;
    blend_kd_start = cfg.locomotion_kd;
    last_target = replicate dof (float 0);
    move_step = 0;
    mode_step = 0;
    previous_start = false;
    previous_a = false;
    previous_b = false;
    previous_left = false;
    previous_right = false;
    pico_motion_switch_armed = false;
    neutral_wait_logged = false;
    vr_start_pending = false;
    vr_request_inflight = false;
    vr_request_time_ns = 0;
    vr_timeout_logged = false;
    selected_motion_index = 0;
    pending_motion_index = none;
    future_valid = false;
    loaded_motion = none;
    damping_requested = false;
    requests = [];
  }

  -- After the last damping command: an exception from `send` ends in the outer handler.
  unfoldable pub close_normally : Loop F × Result (Unit {0}) → Loop F × Phase
  close_normally (l, ok u) = (l, exited 0)
  close_normally (l, err (runtime_error message)) = (l, exited 1)
  close_normally (l, err out_of_bounds) = (l, undefined)
  close_normally (l, err diverged) = (l, undefined)

  -- In the handler an exception from `send` is caught, and the first one is thrown again.
  unfoldable pub close_after_error : Loop F × Result (Unit {0}) → Loop F × Phase
  close_after_error (l, ok u) = (l, exited 1)
  close_after_error (l, err (runtime_error message)) = (l, exited 1)
  close_after_error (l, err out_of_bounds) = (l, undefined)
  close_after_error (l, err diverged) = (l, undefined)

  module _ (delivered : Command F → Bool) (run : List F → List F → Result (List F))
      (run_locomotion : List F → Result (List F)) (cfg : LoopConfig F) where
    -- Behind the loop, where `g_stop` is `stop`.
    unfoldable pub finish : Bool → Loop F → Loop F × Phase
    finish stop l =
        if l.damping_requested || stop
        then close_normally (send_damping delivered run run_locomotion cfg l)
        else (l, exited 0)

    unfoldable pub after_round :
        Loop F × Result Turn → Bool → (Loop F → Loop F × Phase) → Loop F × Phase
    after_round (l, ok goes_on) stop rest = rest l
    after_round (l, ok leaves) stop rest = finish stop l
    after_round (l, err (runtime_error message)) stop rest =
        close_after_error (send_damping delivered run run_locomotion cfg l)
    after_round (l, err out_of_bounds) stop rest = (l, undefined)
    after_round (l, err diverged) stop rest = (l, undefined)

    -- A run over the inputs of its rounds.
    unfoldable pub run_loop : List (Inputs F) → Loop F → Loop F × Phase
    run_loop [] l = (l, running)
    run_loop (i ∷ inputs) l =
        let next =
          after_round (iterate delivered run run_locomotion cfg i l) i.stop_after_receive
            (run_loop inputs) in
        if i.stop_signal then finish true l else next
