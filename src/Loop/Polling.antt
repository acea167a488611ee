-- ===== src/Loop/Polling.antt =====
-- The first part of a round of the control loop (g1_sim2real/src/g1_npz_policy.cpp, `main`): the edges
-- of the remote's buttons, the VR client, and the motion that is loaded in the background.
use grit_deploy_onboard_g.Prelude.{
  ℕ, ◌+◌, ◌-◌, ◌%◌, Bool, true, false, not, ◌&&◌, ◌||◌, Option, none, some, List, [], ◌∷◌, ◌==◌,
  is_some, if◌then◌else◌, Result, ok, err, runtime_error, out_of_bounds, diverged,
}
use grit_deploy_onboard_g.Floats.{Floats, ◌<F◌, ◌≤F◌, float}
use grit_deploy_onboard_g.Segment.{Motion}
use grit_deploy_onboard_g.Grit.{VrPoseFrame, is_standing, select_motion}
use grit_deploy_onboard_g.Locomotion.{StickInput}
use grit_deploy_onboard_g.Transport.{announce}
use grit_deploy_onboard_g.Loop.{
  WholeBodyMode, vr_tracking, npz_playback, Mode, LoopConfig, VrOperatorInput, Inputs, Loop,
}
use grit_deploy_onboard_g.Stateful.{◌>>=◌, ◌>>◌, give, get, put, call}
use grit_deploy_onboard_g.Loop.Monad.{LoopM}

pub data Direction : Type 0 where
  stay forward backward : Direction

pub record Edges : Type 0 where
  pub start_rise : Bool
  pub a_rise : Bool
  pub b_rise : Bool
  pub left_rise : Bool
  pub right_rise : Bool

-- What the VR client has given in this round.
pub record Polled {ℓ} (F : Type ℓ) : Type ℓ where
  pub vr_input : VrOperatorInput F
  pub pico_sticks : Option (StickInput F)
  pub vr_frames : List (VrPoseFrame F)
  pub pico_motion_direction : Direction

abbrev pub is_whole_body : Mode → Bool
is_whole_body Mode.whole_body = true
is_whole_body mode = false

abbrev pub is_tracking : WholeBodyMode → Bool
is_tracking vr_tracking = true
is_tracking npz_playback = false

abbrev pub is_moved : Direction → Bool
is_moved stay = false
is_moved forward = true
is_moved backward = true

module _ {ℓ} {F : Type ℓ} where
  abbrev pub rises : Loop F → Edges
  rises l = record {
    start_rise = l.state.start && not l.previous_start;
    a_rise = l.state.a && not l.previous_a;
    b_rise = l.state.b && not l.previous_b;
    left_rise = l.state.left && not l.previous_left;
    right_rise = l.state.right && not l.previous_right;
  }

  abbrev pub keep_buttons : Loop F → Loop F
  keep_buttons l = record l {
    previous_start = l.state.start;
    previous_a = l.state.a;
    previous_b = l.state.b;
    previous_left = l.state.left;
    previous_right = l.state.right;
  }

  unfoldable pub note_buttons : LoopM F Edges
  note_buttons = do l ← get; put (keep_buttons l); give (rises l)

  -- Motions are selected only in the stable standing mode of the NPZ playback.
  unfoldable pub npz_selection_ready : Loop F → Bool
  npz_selection_ready l =
      is_whole_body l.mode && (not (is_tracking l.whole_body_mode) && is_standing l.grit)

  -- The future's result, where there is one: a motion, or an exception that is caught.
  unfoldable pub finish_loading : Option (Result (Motion F)) → LoopM F (Unit {0})
  finish_loading none = give tt
  finish_loading (some (ok motion)) = do
    l ← get
    put (record l { future_valid = false; loaded_motion = some motion })
  finish_loading (some (err (runtime_error message))) = do
    l ← get
    put (record l { future_valid = false; pending_motion_index = none })
  finish_loading (some (err out_of_bounds)) = call (err out_of_bounds)
  finish_loading (some (err diverged)) = call (err diverged)

  unfoldable pub poll_loading : Option (Result (Motion F)) → LoopM F (Unit {0})
  poll_loading load_done = do
    l ← get
    if is_some l.pending_motion_index && l.future_valid then finish_loading load_done else give tt

  module _ (cfg : LoopConfig F) where
    unfoldable pub take_selection : Option ℕ → Option (Motion F) → Bool → Loop F → Loop F
    take_selection none motion ready l = l
    take_selection (some index) none ready l = l
    take_selection (some index) (some motion) ready l =
        if ready
        then record l {
          selected_motion_index = index;
          grit = select_motion motion (cfg.motion_name index) index cfg.motion_count l.grit;
          transport = announce (cfg.voice_label index) l.transport;
          loaded_motion = none;
          pending_motion_index = none;
        }
        else l

    unfoldable pub select_loaded : LoopM F (Unit {0})
    select_loaded = do
      l ← get
      put (take_selection l.pending_motion_index l.loaded_motion (npz_selection_ready l) l)

    -- `request_motion`: the neighbour of the selected motion is loaded in the background.
    unfoldable pub request_motion : Bool → LoopM F (Unit {0})
    request_motion ahead = do
      l ← get
      let next_index =
          if ahead
          then (l.selected_motion_index + 1) % cfg.motion_count
          else (l.selected_motion_index + cfg.motion_count - 1) % cfg.motion_count
      let requested = record l { pending_motion_index = some next_index; future_valid = true }
      if (cfg.motion_count == 0) || ((cfg.motion_count == 1) || is_some l.pending_motion_index)
          then give tt
          else put requested

module _ {ℓ} {F : Type ℓ} ⦃fl : Floats F⦄ where
  abbrev pub selection_engage : F
  selection_engage = fl.decimal 75 2

  abbrev pub selection_release : F
  selection_release = fl.decimal 25 2

  -- `VrOperatorInput` as it is initialised.
  abbrev pub no_input : VrOperatorInput F
  no_input = record {
    activate_or_default = false;
    start_tracking = false;
    toggle_mode = false;
    stop_control = false;
    sticks_valid = false;
    left_x = float 0;
    left_y = float 0;
    right_x = float 0;
  }

  abbrev pub selection_axis : VrOperatorInput F → F
  selection_axis input =
      if fl.abs input.right_x ≤F fl.abs input.left_x then input.left_x else input.right_x

  -- A stick that has been let go selects once when it is pushed out.
  unfoldable pub arm_switch : F → Loop F → Bool × Direction
  arm_switch axis l =
      if fl.abs axis ≤F selection_release
      then (true, stay)
      else if l.pico_motion_switch_armed && (selection_engage ≤F fl.abs axis)
      then (
        false,
        if is_whole_body l.mode && not (is_tracking l.whole_body_mode)
            then if float 0 <F axis then forward else backward
            else stay,
      )
      else (l.pico_motion_switch_armed, stay)

  -- Whether the VR client has given a frame ends a request.
  abbrev pub still_inflight : List (VrPoseFrame F) → Bool → Bool
  still_inflight [] inflight = inflight
  still_inflight (frame ∷ frames) inflight = false

  unfoldable pub poll_sticks : VrOperatorInput F → Loop F → Bool × Direction
  poll_sticks input l =
      if input.sticks_valid
      then arm_switch (selection_axis input) l
      else (l.pico_motion_switch_armed, stay)

  abbrev pub sticks_of : VrOperatorInput F → Option (StickInput F)
  sticks_of input =
      if input.sticks_valid
      then some (record { left_x = input.left_x; left_y = input.left_y; right_x = input.right_x })
      else none

  unfoldable pub polled_of : LoopConfig F → Inputs F → Loop F → Polled F
  polled_of cfg i l =
      if cfg.vr_client
      then record {
        vr_input = i.vr_input;
        pico_sticks = sticks_of i.vr_input;
        vr_frames = i.vr_frames;
        pico_motion_direction = (poll_sticks i.vr_input l).1;
      }
      else record {
        vr_input = no_input;
        pico_sticks = none;
        vr_frames = [];
        pico_motion_direction = stay;
      }

  unfoldable pub note_vr : LoopConfig F → Inputs F → Loop F → Loop F
  note_vr cfg i l =
      if cfg.vr_client
      then record l {
        pico_motion_switch_armed = (poll_sticks i.vr_input l).0;
        vr_request_inflight = still_inflight i.vr_frames l.vr_request_inflight;
      }
      else l

  unfoldable pub poll_vr : LoopConfig F → Inputs F → LoopM F (Polled F)
  poll_vr cfg i = do l ← get; put (note_vr cfg i l); give (polled_of cfg i l)
