-- ===== src/Loop/Modes.antt =====
-- One round of the control loop and its runs (g1_sim2real/src/g1_npz_policy.cpp, `main`).
use grit_deploy_onboard_g.Prelude.{
  ℕ, ◌+◌, Bool, true, false, not, ◌&&◌, ◌||◌, List, replicate, ltb, leb, if◌then◌else◌, Result,
}
use grit_deploy_onboard_g.Floats.{Floats, ◌/F◌, float, fmin}
use grit_deploy_onboard_g.Segment.{dof, zip_with, blend}
use grit_deploy_onboard_g.Grit.{is_standing}
use grit_deploy_onboard_g.Grit.Playback.{initialize_default, step as step_grit}
use grit_deploy_onboard_g.Locomotion.{sticks_neutral, reset, step as step_loco}
use grit_deploy_onboard_g.Transport.{Command, Transport, announce_mode, make_command, send}
use grit_deploy_onboard_g.Loop.{
  WholeBodyMode, vr_tracking, npz_playback, Mode, LoopConfig, Inputs, Loop, move_steps, blend_steps,
  locomotion_stop_steps,
}
use grit_deploy_onboard_g.Stateful.{◌>>=◌, ◌>>◌, give, get, put, throw, call}
use grit_deploy_onboard_g.Loop.Monad.{LoopM}
use grit_deploy_onboard_g.Loop.Polling.{
  Edges, Polled, note_buttons, poll_vr, poll_loading, select_loaded,
}
use grit_deploy_onboard_g.Loop.WholeBody.{control_whole_body, is_combined}

-- Whether the loop goes on; it ends at a `break`.
pub data Turn : Type 0 where
  goes_on leaves : Turn

-- What a mode gives to the motors.
pub record Drive {ℓ} (F : Type ℓ) : Type ℓ where
  pub target : List F
  pub kp : List F
  pub kd : List F

module _ {ℓ} {F : Type ℓ} ⦃fl : Floats F⦄ where
  abbrev pub zeros : List F
  zeros = replicate dof (float 0)

  abbrev pub damping : List F
  damping = replicate dof (float 8)

  -- `alpha` of step `step` of `steps`.
  abbrev pub fraction : ℕ → ℕ → F
  fraction step steps = float (step + 1) /F float steps

  unfoldable pub blend_values : List F → List F → ℕ → List F
  blend_values start target step =
      zip_with (blend (fmin (float 1) (fraction step blend_steps))) start target

  -- The blend in the first 50 steps, and the target after.
  unfoldable pub blend_in : List F → List F → ℕ → List F
  blend_in start target step =
      if ltb step blend_steps then blend_values start target step else target

  module _ (delivered : Command F → Bool) (run : List F → List F → Result (List F))
      (run_locomotion : List F → Result (List F)) (cfg : LoopConfig F) where
    unfoldable pub transmit : List F → List F → List F → ℕ → LoopM F (Unit {0})
    transmit q kp kd enable = do
      l ← get
      let command = make_command q zeros kp kd enable l.state.receive_time_ns l.transport
      let sent = send delivered command l.transport
      put (record l { transport = sent.0 })
      if sent.1 then give tt else throw "command sendto failed"

    unfoldable pub send_damping : LoopM F (Unit {0})
    unfolding transmit
    send_damping = transmit zeros zeros damping 0

    unfoldable pub drive_zero_torque : LoopM F Turn
    drive_zero_torque = do
      transmit zeros zeros zeros 0
      l ← get
      put (
          if l.state.start
          then record l { move_start = l.state.q; move_step = 0; mode = Mode.move_to_default }
          else l)
      give goes_on

    -- The locomotion policy takes control, from the target and the gains that were sent last.
    unfoldable pub take_locomotion : List F → List F → List F → LoopM F (Unit {0})
    take_locomotion target kp kd = do
      l ← get
      loco ← call (reset l.state l.loco)
      put (record l {
        loco = loco;
        blend_start = target;
        blend_kp_start = kp;
        blend_kd_start = kd;
        mode_step = 0;
        mode = Mode.locomotion_blend;
      })

    unfoldable pub drive_move_to_default : LoopM F Turn
    drive_move_to_default = do
      l ← get
      let target = zip_with (blend (fraction l.move_step move_steps)) l.move_start cfg.init_q
      transmit target cfg.locomotion_kp cfg.locomotion_kd 1
      sent ← get
      let moved = record sent { last_target = target; move_step = sent.move_step + 1 }
      put moved
      if leb move_steps moved.move_step
          then take_locomotion target moved.blend_kp_start moved.blend_kd_start
          else give tt
      give goes_on

    -- `locomotion_policy.step`.
    unfoldable pub step_locomotion : Bool → Polled F → LoopM F (List F)
    step_locomotion force_zero_command polled = do
      l ← get
      stepped ← call (step_loco run_locomotion l.state force_zero_command polled.pico_sticks l.loco)
      put (record l { loco = stepped.0 })
      give stepped.1

    -- `grit_policy.step`.
    unfoldable pub step_whole_body : LoopM F (List F)
    step_whole_body = do
      l ← get
      stepped ← call (step_grit run l.state l.grit)
      put (record l { grit = stepped.0 })
      give stepped.1

    -- Locomotion is handed to the operator once its sticks are centred.
    unfoldable pub enter_locomotion : Polled F → Loop F → Loop F
    enter_locomotion polled l =
        if leb blend_steps l.mode_step && sticks_neutral l.state polled.pico_sticks
        then record l {
          mode = Mode.locomotion;
          neutral_wait_logged = false;
          transport =
              announce_mode (if cfg.vr_client then "loco mode" else "Loco mode") "loco" l.transport;
        }
        else record l { neutral_wait_logged = leb blend_steps l.mode_step || l.neutral_wait_logged }

    unfoldable pub drive_locomotion_blend : Polled F → LoopM F (Drive F)
    drive_locomotion_blend polled = do
      policy_target ← step_locomotion true polled
      l ← get
      put (
          enter_locomotion polled (record l {
            mode_step = if ltb l.mode_step blend_steps then l.mode_step + 1 else l.mode_step;
          }))
      give (record {
        target = blend_in l.blend_start policy_target l.mode_step;
        kp = blend_in l.blend_kp_start cfg.locomotion_kp l.mode_step;
        kd = blend_in l.blend_kd_start cfg.locomotion_kd l.mode_step;
      })

    unfoldable pub wants_whole_body : Edges → Polled F → Bool
    wants_whole_body edges polled =
        edges.b_rise
        || (cfg.vr_client && (polled.vr_input.toggle_mode || polled.vr_input.activate_or_default))

    abbrev pub stop_locomotion : Loop F → Loop F
    stop_locomotion l = record l {
      whole_body_mode = if is_combined cfg then vr_tracking else l.whole_body_mode;
      mode = Mode.locomotion_stopping;
      mode_step = 0;
    }

    abbrev pub locomotion_drive : List F → Drive F
    locomotion_drive target = record {
      target = target;
      kp = cfg.locomotion_kp;
      kd = cfg.locomotion_kd;
    }

    abbrev pub whole_body_drive : List F → Drive F
    whole_body_drive target = record {
      target = target;
      kp = cfg.whole_body_kp;
      kd = cfg.whole_body_kd;
    }

    unfoldable pub drive_locomotion : Edges → Polled F → LoopM F (Drive F)
    drive_locomotion edges polled = do
      l ← get
      let stopping = wants_whole_body edges polled
      put (if stopping then stop_locomotion l else l)
      target ← step_locomotion stopping polled
      give (locomotion_drive target)

    unfoldable pub drive_locomotion_stopping : Polled F → LoopM F (Drive F)
    drive_locomotion_stopping polled = do
      target ← step_locomotion true polled
      l ← get
      let counted = record l { mode_step = l.mode_step + 1 }
      put counted
      let hand_over = do
        grit ← call (initialize_default l.state l.grit)
        put (record counted {
          grit = grit;
          blend_start = target;
          blend_kp_start = cfg.locomotion_kp;
          blend_kd_start = cfg.locomotion_kd;
          mode_step = 0;
          mode = Mode.whole_body_blend;
        })
      if leb locomotion_stop_steps counted.mode_step then hand_over else give tt
      give (locomotion_drive target)

    abbrev pub whole_body_announced : WholeBodyMode → Transport F → Transport F
    whole_body_announced vr_tracking t = announce_mode "VR Tracking mode" "vr" t
    whole_body_announced npz_playback t = announce_mode "NPZ mode" "npz" t

    -- The steps of a whole-body transition.
    abbrev pub settle_steps : Loop F → ℕ
    settle_steps l = l.grit.transition_steps + 25

    unfoldable pub enter_whole_body : Loop F → Loop F
    enter_whole_body l =
        if leb (settle_steps l) l.mode_step
        then record l {
          mode = Mode.whole_body;
          transport = whole_body_announced l.whole_body_mode l.transport;
        }
        else l

    unfoldable pub drive_whole_body_blend : LoopM F (Drive F)
    drive_whole_body_blend = do
      policy_target ← step_whole_body
      l ← get
      put (enter_whole_body (record l { mode_step = l.mode_step + 1 }))
      give (record {
        target = blend_values l.blend_start policy_target l.mode_step;
        kp = blend_values l.blend_kp_start cfg.whole_body_kp l.mode_step;
        kd = blend_values l.blend_kd_start cfg.whole_body_kd l.mode_step;
      })

    unfoldable pub drive_whole_body : Inputs F → Edges → Polled F → LoopM F (Drive F)
    drive_whole_body i edges polled = do
      control_whole_body cfg i edges polled
      target ← step_whole_body
      give (whole_body_drive target)

    unfoldable pub enter_playback : Loop F → Loop F
    enter_playback l =
        if is_standing l.grit
        then record l {
          mode = Mode.whole_body;
          transport = announce_mode "NPZ mode" "npz" l.transport;
        }
        else l

    unfoldable pub drive_switching : LoopM F (Drive F)
    drive_switching = do
      target ← step_whole_body
      l ← get
      put (enter_playback l)
      give (whole_body_drive target)

    unfoldable pub drive_stopping : LoopM F (Drive F)
    drive_stopping = do
      target ← step_whole_body
      l ← get
      let counted = record l { mode_step = l.mode_step + 1 }
      put counted
      let hand_over = do
        take_locomotion target cfg.whole_body_kp cfg.whole_body_kd
        taken ← get
        put (record taken { neutral_wait_logged = false })
      if leb (settle_steps counted) counted.mode_step then hand_over else give tt
      give (whole_body_drive target)

    -- The end of a round in the modes that run a policy.
    unfoldable pub apply_drive : Drive F → LoopM F Turn
    apply_drive drive = do
      transmit drive.target drive.kp drive.kd 1
      l ← get
      put (record l { last_target = drive.target })
      give goes_on

    unfoldable pub drive_mode : Inputs F → Edges → Polled F → Mode → LoopM F Turn
    drive_mode i edges polled Mode.zero_torque = drive_zero_torque
    drive_mode i edges polled Mode.move_to_default = drive_move_to_default
    drive_mode i edges polled Mode.locomotion_blend = drive_locomotion_blend polled >>= apply_drive
    drive_mode i edges polled Mode.locomotion = drive_locomotion edges polled >>= apply_drive
    drive_mode i edges polled Mode.locomotion_stopping =
        drive_locomotion_stopping polled >>= apply_drive
    drive_mode i edges polled Mode.whole_body_blend = drive_whole_body_blend >>= apply_drive
    drive_mode i edges polled Mode.whole_body = drive_whole_body i edges polled >>= apply_drive
    drive_mode i edges polled Mode.whole_body_switching = drive_switching >>= apply_drive
    drive_mode i edges polled Mode.whole_body_stopping = drive_stopping >>= apply_drive

    abbrev pub leave_damped : LoopM F Turn
    leave_damped = do l ← get; put (record l { damping_requested = true }); give leaves

    unfoldable pub work : Inputs F → Edges → Polled F → LoopM F Turn
    work i edges polled = do
      poll_loading i.load_done
      select_loaded cfg
      l ← get
      drive_mode i edges polled l.mode

    unfoldable pub control : Inputs F → LoopM F Turn
    control i = do
      edges ← note_buttons
      polled ← poll_vr cfg i
      if polled.vr_input.stop_control then leave_damped else work i edges polled

    -- `transport.receive` has left the state as `i.received.0` says, and returned or thrown.
    unfoldable pub iterate : Inputs F → LoopM F Turn
    iterate i = do
      l ← get
      put (record l { state = i.received.0 })
      came ← call i.received.1
      if not came
          then if i.stop_after_receive
            then give leaves
            else throw "No bridge state for 1 s; damping requested"
          else if i.received.0.x
          then leave_damped
          else control i
