-- ===== src/Tests/Loop.antt =====
-- The theorems on the control loop (g1_sim2real/src/g1_npz_policy.cpp, `main`) at concrete runs.
use grit_deploy_onboard_g.Prelude.{
  ℕ, ◌≡◌, refl, arith, true, false, none, Bool, List, [], ◌∷◌, replicate, Result, ok, returned,
}
use grit_deploy_onboard_g.Segment.{dof}
use grit_deploy_onboard_g.Transport.{Command, Transport}
use grit_deploy_onboard_g.Loop.{Mode, LoopConfig, VrOperatorInput, Inputs, Loop}
use grit_deploy_onboard_g.Loop.Polling.{rises, keep_buttons, polled_of}
use grit_deploy_onboard_g.Loop.Modes.{iterate}
use grit_deploy_onboard_g.Stateful.Outcome.{Outcome}
use grit_deploy_onboard_g.Loop.Invariant.{IsLoop, IsLoopConfig, IsInputs, Logged}
use grit_deploy_onboard_g.Loop.Iterate.{received, iterate-IsTurn}
use grit_deploy_onboard_g.Loop.Turns.{IsTurn}
use grit_deploy_onboard_g.Loop.Runs.{start_loop, run_loop}
use grit_deploy_onboard_g.Loop.Runs.Start.{start_loop-IsLoop}
use grit_deploy_onboard_g.Loop.Runs.Damped.{Reaches, run_loop-Reaches}
use grit_deploy_onboard_g.Loop.Runs.Arrival.{Moved, move_to_default-arrives}
use grit_deploy_onboard_g.Tests.Values.{
  whole, policy_at, policy_at-IsConfigured, held, standing, walker, walker-IsLocomotion,
}

abbrev settings : LoopConfig ℕ
settings = record {
  vr_client = true;
  motion_count = 2;
  motion_name = λ index. "motion";
  voice_label = λ index. "motion";
  vr_timeout_ms = 300;
  init_q = replicate 29 5;
  whole_body_kp = replicate 29 6;
  whole_body_kd = replicate 29 1;
  locomotion_kp = replicate 29 7;
  locomotion_kd = replicate 29 2;
}

settings-IsLoopConfig : IsLoopConfig settings
settings-IsLoopConfig = record {
  init = refl;
  whole_body_p = refl;
  whole_body_d = refl;
  locomotion_p = refl;
  locomotion_d = refl;
}

abbrev idle_input : VrOperatorInput ℕ
idle_input = record {
  activate_or_default = false;
  start_tracking = false;
  toggle_mode = false;
  stop_control = false;
  sticks_valid = false;
  left_x = 0;
  left_y = 0;
  right_x = 0;
}

-- A round in which START is pressed.
abbrev pressed : Inputs ℕ
pressed = record {
  stop_signal = false;
  stop_after_receive = false;
  received = (record standing { start = true }, ok true);
  vr_input = idle_input;
  vr_frames = [];
  last_pose_ns = 0;
  current_ns = 7;
  request_sent = true;
  load_done = none;
}

pressed-IsInputs : IsInputs pressed
pressed-IsInputs = record {
  receives = returned λ _. record { q = refl; dq = refl };
  loads = λ result h. cc;
}

abbrev silent : Transport ℕ
silent = record {
  sequence = 0;
  announcement_id = 0;
  announcement = "";
  mode_indicator_id = 0;
  mode_indicator = "";
  sent = [];
}

abbrev started : Loop ℕ
started = start_loop settings standing (policy_at (held 21 4) false) walker silent

started-IsLoop : IsLoop settings started
started-IsLoop =
    start_loop-IsLoop settings standing (policy_at (held 21 4) false) walker silent
      settings-IsLoopConfig (policy_at-IsConfigured (held 21 4) false) (refl, refl)
      walker-IsLocomotion

-- Two rounds before the end of the move.
abbrev moving : Loop ℕ
moving = record started { mode = Mode.move_to_default; move_step = 98; move_start = replicate 29 1 }

moving-IsLoop : IsLoop settings moving
moving-IsLoop =
    let v = started-IsLoop in
    (
      record {
        configured = v.0.configured;
        whole_body = λ (h : false ≡ true). absurd (cc);
        parts = v.0.parts;
        ready = λ (h : false ≡ true). absurd (cc);
      },
      record {
        streams = λ (h : false ≡ true). absurd (cc);
        asks = λ (h : false ≡ true). absurd (cc);
        plays = λ (h : false ≡ true). absurd (cc);
        tracks = λ _. refl;
      },
      record { moves = λ h. omega arith; blends = λ h. cc; stops = λ h. cc },
      v.3,
      v.4,
      (λ h. refl),
    )

abbrev taken : Command ℕ → Bool
taken command = true

abbrev twos : List ℕ → List ℕ → Result (List ℕ)
twos reference proprio = ok (replicate dof 2)

abbrev threes : List ℕ → Result (List ℕ)
threes observation = ok (replicate dof 3)

iterate-IsTurn_example :
    Outcome
      (IsTurn settings
        (rises (received pressed started))
        (polled_of settings pressed (keep_buttons (received pressed started)))
        (received pressed started)
        []
        false)
      (Logged [])
      (iterate taken twos threes settings pressed started)
iterate-IsTurn_example =
    iterate-IsTurn taken twos threes settings (λ r h. returned tt) (λ o. returned tt)
      settings-IsLoopConfig pressed started pressed-IsInputs started-IsLoop

run_loop-Reaches_example :
    Reaches (IsLoop settings) (run_loop taken twos threes settings (pressed ∷ pressed ∷ []) started)
run_loop-Reaches_example =
    run_loop-Reaches taken twos threes settings (λ r h. returned tt) (λ o. returned tt)
      settings-IsLoopConfig (λ c. refl) (pressed ∷ pressed ∷ []) started
      (pressed-IsInputs, (pressed-IsInputs, tt)) started-IsLoop

move_to_default-arrives_example :
    Reaches (Moved 100) (run_loop taken twos threes settings (pressed ∷ pressed ∷ []) moving)
move_to_default-arrives_example =
    move_to_default-arrives taken twos threes settings (λ r h. returned tt) (λ o. returned tt)
      settings-IsLoopConfig (λ c. refl) (pressed ∷ pressed ∷ []) moving 100
      (pressed-IsInputs, (pressed-IsInputs, tt)) moving-IsLoop refl refl (omega arith)
