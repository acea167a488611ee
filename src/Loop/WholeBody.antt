-- ===== src/Loop/WholeBody.antt =====
-- The branch of the control loop for the whole-body mode (g1_sim2real/src/g1_npz_policy.cpp, `main`):
-- the operator's triggers, the VR frames, their timeout, and the requests for more.
use grit_deploy_onboard_g.Prelude.{
  ℕ, ◌+◌, ◌-◌, ◌*◌, ◌%◌, ◌^◌, Bool, true, false, not, ◌&&◌, ◌||◌, List, [], ◌∷◌, ltb, leb, is_some,
  if◌then◌else◌, Result,
}
use grit_deploy_onboard_g.Floats.{Floats}
use grit_deploy_onboard_g.Grit.{
  VrPoseFrame, GritPolicy, last_context_offset, future_horizon, is_standing,
}
use grit_deploy_onboard_g.Grit.Playback.{return_default, play_motion}
use grit_deploy_onboard_g.Grit.Stream.{append_vr_frame, start_vr_session, stop_vr}
use grit_deploy_onboard_g.Loop.{npz_playback, Mode, LoopConfig, Inputs, Loop}
use grit_deploy_onboard_g.Stateful.{◌>>=◌, ◌>>◌, give, get, put, call}
use grit_deploy_onboard_g.Loop.Monad.{LoopM}
use grit_deploy_onboard_g.Loop.Polling.{
  Direction, stay, forward, backward, Edges, Polled, is_whole_body, is_tracking, is_moved,
  request_motion,
}

-- `a - b` on a `uint64_t`, for arguments below 2^64.
abbrev pub sub_time : ℕ → ℕ → ℕ
sub_time a b = (a + 2 ^ 64 - b) % 2 ^ 64

abbrev pub request_retry_ns : ℕ
request_retry_ns = 100000000

-- `combined_mode`: VR and motion files.
abbrev pub is_combined {ℓ} : {F : Type ℓ} → LoopConfig F → Bool
is_combined cfg = cfg.vr_client && ltb 0 cfg.motion_count

module _ {ℓ} {F : Type ℓ} where
  -- An operation of `grit_policy`.
  abbrev pub update_grit : (GritPolicy F → Result (GritPolicy F)) → LoopM F (Unit {0})
  update_grit operation = do l ← get; grit ← call (operation l.grit); put (record l { grit = grit })

  abbrev pub forget_request : Loop F → Loop F
  forget_request l = record l { vr_start_pending = false; vr_request_inflight = false }

  -- The modes that a toggle leads to: the playback where VR tracking is left and there are motions, and
  -- locomotion otherwise.
  unfoldable pub leave_whole_body : LoopConfig F → Bool → Loop F → Loop F
  leave_whole_body cfg vr_mode l =
      if is_combined cfg && vr_mode
      then record l {
        mode_step = 0;
        whole_body_mode = npz_playback;
        mode = Mode.whole_body_switching;
      }
      else record l { mode_step = 0; mode = Mode.whole_body_stopping }

module _ {ℓ} {F : Type ℓ} ⦃fl : Floats F⦄ where
  -- `stop_vr` where VR is streaming, and `return_default` otherwise.
  unfoldable pub stop_or_return : GritPolicy F → Result (GritPolicy F)
  stop_or_return grit = if grit.vr_streaming then stop_vr grit else return_default grit

  -- The return to the standing pose by remote START or by a toggle.
  unfoldable pub return_to_stand : Bool → LoopM F (Unit {0})
  return_to_stand vr_mode = do
    l ← get
    if vr_mode
        then (do put (forget_request l); update_grit stop_or_return)
        else update_grit return_default

  unfoldable pub activate_default : Bool → LoopM F (Unit {0})
  activate_default vr_mode = do
    l ← get
    put (forget_request l)
    update_grit λ grit. if vr_mode && grit.vr_streaming then stop_vr grit else return_default grit

  unfoldable pub toggle : LoopConfig F → Bool → LoopM F (Unit {0})
  toggle cfg vr_mode = do return_to_stand vr_mode; l ← get; put (leave_whole_body cfg vr_mode l)

  unfoldable pub play : LoopM F (Unit {0})
  play = do
    l ← get
    if is_some l.pending_motion_index then give tt else update_grit (play_motion l.state)

  -- The stick's direction of `request_motion`.
  unfoldable pub request_direction : LoopConfig F → Direction → LoopM F (Unit {0})
  request_direction cfg stay = give tt
  request_direction cfg forward = request_motion cfg true
  request_direction cfg backward = request_motion cfg false

  -- The chain of triggers, each with its guard.
  unfoldable pub handle_triggers : LoopConfig F → Edges → Polled F → Bool → LoopM F (Unit {0})
  handle_triggers cfg edges polled vr_mode = do
    l ← get
    let input = polled.vr_input
    let standing = is_standing l.grit
    if edges.b_rise || (cfg.vr_client && input.toggle_mode)
        then toggle cfg vr_mode
        else if edges.start_rise
        then return_to_stand vr_mode
        else if cfg.vr_client && input.activate_or_default
        then activate_default vr_mode
        else if not vr_mode && (edges.left_rise && edges.right_rise)
        then give tt
        else if not vr_mode && (edges.left_rise && standing)
        then request_motion cfg false
        else if not vr_mode && (edges.right_rise && standing)
        then request_motion cfg true
        else if not vr_mode && (is_moved polled.pico_motion_direction && standing)
        then request_direction cfg polled.pico_motion_direction
        else if not vr_mode && (edges.a_rise || (cfg.vr_client && input.start_tracking))
        then play
        else give tt

  unfoldable pub start_tracking : LoopM F (Unit {0})
  start_tracking = do
    l ← get
    put (record l {
      vr_start_pending = true;
      vr_request_inflight = false;
      vr_timeout_logged = false;
    })
    update_grit stop_vr

  -- A frame that starts a session is taken where the operator has asked for one.
  unfoldable pub feed_frame : VrPoseFrame F → LoopM F (Unit {0})
  feed_frame frame = do
    l ← get
    let start = do
      grit ← call (start_vr_session frame l.grit)
      put (record l { grit = grit; vr_start_pending = false; vr_timeout_logged = false })
    let append = do
      appended ← call (append_vr_frame frame l.grit)
      put (record l { grit = appended.0 })
    if frame.starts_session
        then if l.vr_start_pending then start else give tt
        else if l.vr_start_pending || not l.grit.vr_streaming
        then give tt
        else append

  unfoldable pub feed_frames : List (VrPoseFrame F) → LoopM F (Unit {0})
  feed_frames [] = give tt
  feed_frames (frame ∷ frames) = do feed_frame frame; feed_frames frames

  unfoldable pub pose_timed_out : LoopConfig F → ℕ → ℕ → Loop F → Bool
  pose_timed_out cfg current_ns last_pose_ns l =
      l.grit.vr_streaming
      && (ltb 0 last_pose_ns
          && ltb (cfg.vr_timeout_ms * 1000000) (sub_time current_ns last_pose_ns))

  unfoldable pub check_timeout : LoopConfig F → ℕ → ℕ → LoopM F (Unit {0})
  check_timeout cfg current_ns last_pose_ns = do
    l ← get
    let stop = do put (record (forget_request l) { vr_timeout_logged = true }); update_grit stop_vr
    if pose_timed_out cfg current_ns last_pose_ns l then stop else give tt

  unfoldable pub needs_pose : Loop F → Bool
  needs_pose l =
      l.vr_start_pending
      || (l.grit.vr_streaming && leb (future_horizon l.grit.segment) last_context_offset)

  -- `request_sent` is what the VR client's `request_pose` answers.
  unfoldable pub ask_pose : ℕ → Bool → Loop F → Loop F
  ask_pose current_ns request_sent l =
      let due =
        needs_pose l
        && (not l.vr_request_inflight
            || leb request_retry_ns (sub_time current_ns l.vr_request_time_ns)) in
      if due && request_sent
      then record l {
        vr_request_inflight = true;
        vr_request_time_ns = current_ns;
        requests = l.vr_start_pending ∷ l.requests;
      }
      else l

  unfoldable pub track : LoopConfig F → Inputs F → Polled F → LoopM F (Unit {0})
  track cfg i polled = do
    if polled.vr_input.start_tracking then start_tracking else give tt
    feed_frames polled.vr_frames
    check_timeout cfg i.current_ns i.last_pose_ns
    l ← get
    put (ask_pose i.current_ns i.request_sent l)

  unfoldable pub control_whole_body :
      LoopConfig F → Inputs F → Edges → Polled F → LoopM F (Unit {0})
  control_whole_body cfg i edges polled = do
    before ← get
    let vr_mode = is_tracking before.whole_body_mode
    handle_triggers cfg edges polled vr_mode
    l ← get
    if is_whole_body l.mode && (vr_mode && cfg.vr_client) then track cfg i polled else give tt
