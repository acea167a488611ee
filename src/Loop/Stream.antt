-- ===== src/Loop/Stream.antt =====
-- The VR frames, their timeout and their requests in the control loop (g1_sim2real/src/
-- g1_npz_policy.cpp, `main`) keep the invariant.
use grit_deploy_onboard_g.Prelude.{
  ℕ, ◌≡◌, sym, ◌∙◌, Bool, true, false, not, ◌&&◌, ◌||◌, List, [], ◌∷◌, if-split, and_left,
  and_right, Bool-cases, inl, inr, Ensures-weaken,
}
use grit_deploy_onboard_g.Floats.{Floats}
use grit_deploy_onboard_g.Grit.{RobotState, VrPoseFrame, GritPolicy}
use grit_deploy_onboard_g.Grit.Stream.{stop_vr}
use grit_deploy_onboard_g.Grit.Invariant.{IsPolicy}
use grit_deploy_onboard_g.Grit.Horizon.{append_vr_frame-IsPolicy}
use grit_deploy_onboard_g.Grit.Session.{start_vr_session-IsPolicy, stop_vr-IsPolicy}
use grit_deploy_onboard_g.Transport.{Command}
use grit_deploy_onboard_g.Loop.{WholeBodyMode, vr_tracking, LoopConfig, Inputs, Loop}
use grit_deploy_onboard_g.Loop.Polling.{Edges, Polled, is_whole_body, is_tracking}
use grit_deploy_onboard_g.Loop.WholeBody.{
  update_grit, start_tracking, feed_frame, feed_frames, pose_timed_out, check_timeout, ask_pose,
  track, control_whole_body,
}
use grit_deploy_onboard_g.Stateful.Outcome.{
  Outcome, gave, Outcome-after, Outcome-call, Outcome-split, Outcome-weaken,
}
use grit_deploy_onboard_g.Loop.Invariant.{IsLoop, Logged}
use grit_deploy_onboard_g.Loop.Session.{IsIn, update_grit-IsIn, with_grit-IsIn, forget_request-IsIn}
use grit_deploy_onboard_g.Loop.Session.Triggers.{
  IsHandled, Handled, remains, switches, stops, is_tracking-eq, handle_triggers-IsHandled,
}

module _ {ℓ} {F : Type ℓ} ⦃fl : Floats F⦄ (cfg : LoopConfig F) {state : RobotState F}
    {sent : List (Command F)} where
  -- Stopping VR keeps the flags fitting, whether or not it was streaming.
  stop_vr-IsIn :
      (l : Loop F)
      → IsIn cfg vr_tracking state sent l
      → Outcome (λ _. IsIn cfg vr_tracking state sent) (Logged sent) (update_grit stop_vr l)
  stop_vr-IsIn l v =
      Outcome-weaken
        (update_grit-IsIn cfg (λ _. Unit {0}) stop_vr l v
          λ p. Ensures-weaken (stop_vr-IsPolicy l.grit p) λ q h. (
            (
              h.0,
              record {
                streams = λ on. cc (h.1, on);
                asks = v.0.0.1.asks;
                plays = λ on. elim (Bool-cases l.grit.vr_streaming) [
                  | inl streamed ↦ absurd (cc ((h.3 streamed).0, on))
                  | inr idle ↦ v.0.0.1.plays (cc (h.2 idle, on))
                ];
                tracks = v.0.0.1.tracks;
              },
            ),
            tt,
          ))
        (λ _ r h. h.0)

  start_tracking-IsIn :
      (l : Loop F)
      → IsIn cfg vr_tracking state sent l
      → Outcome (λ _. IsIn cfg vr_tracking state sent) (Logged sent) (start_tracking l)
  unfolding start_tracking
  start_tracking-IsIn l v =
      let t = v.0.0.1 in
      stop_vr-IsIn
        (record l {
          vr_start_pending = true;
          vr_request_inflight = false;
          vr_timeout_logged = false;
        })
        (
          (
            (
              v.0.0.0,
              record {
                streams = t.streams;
                asks = λ _. (v.0.1, v.1);
                plays = t.plays;
                tracks = t.tracks;
              },
              v.0.0.2,
              v.0.0.3,
              v.0.0.4,
              v.0.0.5,
            ),
            v.0.1,
            v.0.2,
            v.0.3,
          ),
          v.1,
        )

  started :
      (l : Loop F) (q : GritPolicy F)
      → IsIn cfg vr_tracking state sent l
      → IsPolicy q
      → q.playing_motion ≡ false
      → IsIn cfg vr_tracking state sent
          (record l { grit = q; vr_start_pending = false; vr_timeout_logged = false })
  started l q v p e =
      let placed = with_grit-IsIn cfg l q v p (record {
        streams = λ _. (v.0.1, v.1);
        asks = v.0.0.1.asks;
        plays = λ (on : q.playing_motion ≡ true). absurd (cc (e, on));
        tracks = v.0.0.1.tracks;
      }) in
      forget_request-IsIn cfg (record l { grit = q }) placed

  feed_frame-IsIn :
      (frame : VrPoseFrame F) (l : Loop F)
      → IsIn cfg vr_tracking state sent l
      → Outcome (λ _. IsIn cfg vr_tracking state sent) (Logged sent) (feed_frame frame l)
  unfolding feed_frame
  feed_frame-IsIn frame l v =
      let p = v.0.0.0.whole_body (rw v.0.1) in
      Outcome-split frame.starts_session _ _
        (λ _.
          Outcome-split l.vr_start_pending _ _
            (λ _.
              Outcome-call _ (start_vr_session-IsPolicy frame l.grit p) (inl v.0.3)
                λ q h. gave (started l q v h.0 h.2))
            (λ _. gave v))
        λ _.
          Outcome-split (l.vr_start_pending || not l.grit.vr_streaming) _ _ (λ _. gave v)
            λ _. Outcome-call _ (append_vr_frame-IsPolicy frame l.grit p) (inl v.0.3) λ q h. gave (
              with_grit-IsIn cfg l q.0 v h.0 (record {
                streams = λ on. v.0.0.1.streams (sym h.1 ∙ on);
                asks = v.0.0.1.asks;
                plays = λ on. v.0.0.1.plays (sym h.2 ∙ on);
                tracks = v.0.0.1.tracks;
              }))

  feed_frames-IsIn :
      (frames : List (VrPoseFrame F)) (l : Loop F)
      → IsIn cfg vr_tracking state sent l
      → Outcome (λ _. IsIn cfg vr_tracking state sent) (Logged sent) (feed_frames frames l)
  unfolding feed_frames
  feed_frames-IsIn [] l v = gave v
  feed_frames-IsIn (frame ∷ frames) l v =
      Outcome-after (feed_frame-IsIn frame l v) λ _ r h. feed_frames-IsIn frames r h

  check_timeout-IsIn :
      (current_ns last_pose_ns : ℕ) (l : Loop F)
      → IsIn cfg vr_tracking state sent l
      → Outcome
          (λ _. IsIn cfg vr_tracking state sent)
          (Logged sent)
          (check_timeout cfg current_ns last_pose_ns l)
  unfolding check_timeout
  check_timeout-IsIn current_ns last_pose_ns l v =
      Outcome-split (pose_timed_out cfg current_ns last_pose_ns l) _ _
        (λ _. stop_vr-IsIn _ (forget_request-IsIn cfg l v)) (λ _. gave v)

  ask_pose-IsIn :
      (current_ns : ℕ) (request_sent : Bool) (l : Loop F)
      → IsIn cfg vr_tracking state sent l
      → IsIn cfg vr_tracking state sent (ask_pose current_ns request_sent l)
  unfolding ask_pose
  ask_pose-IsIn current_ns request_sent l v =
      if-split (IsIn cfg vr_tracking state sent) _ (λ _. v) (λ _. v)

  track-IsIn :
      (i : Inputs F) (polled : Polled F) (l : Loop F)
      → IsIn cfg vr_tracking state sent l
      → Outcome (λ _. IsIn cfg vr_tracking state sent) (Logged sent) (track cfg i polled l)
  unfolding track
  track-IsIn i polled l v =
      Outcome-after
        (Outcome-split polled.vr_input.start_tracking _ _ (λ _. start_tracking-IsIn l v)
          (λ _. gave v))
        λ _ a va. Outcome-after (feed_frames-IsIn polled.vr_frames a va) λ _ b vb.
          Outcome-after (check_timeout-IsIn i.current_ns i.last_pose_ns b vb)
            λ _ c vc. gave (ask_pose-IsIn i.current_ns i.request_sent c vc)

  -- Where tracking goes on, no trigger has ended it.
  tracked :
      {toggled : Bool} {w : WholeBodyMode} (r : Loop F)
      → is_whole_body r.mode ≡ true
      → w ≡ vr_tracking
      → IsLoop cfg r × (r.state ≡ state) × (r.transport.sent ≡ sent)
      → Handled cfg toggled w r
      → IsIn cfg vr_tracking state sent r
  tracked r on e v (remains here same) = ((v.0, here, v.1, v.2), same ∙ e)
  tracked r on e v (switches _ _ _ gone) = cc
  tracked r on e v (stops _ gone) = cc

  -- The branch throws, remains in the mode, or has left it by a toggle.
  pub control_whole_body-IsHandled :
      (i : Inputs F) (edges : Edges) (polled : Polled F) (l : Loop F)
      → IsIn cfg l.whole_body_mode state sent l
      → Outcome
          (λ _.
            IsHandled cfg
              (edges.b_rise || (cfg.vr_client && polled.vr_input.toggle_mode))
              l.whole_body_mode
              state
              sent)
          (Logged sent)
          (control_whole_body cfg i edges polled l)
  unfolding control_whole_body
  control_whole_body-IsHandled i edges polled l v =
      Outcome-after (handle_triggers-IsHandled cfg edges polled l.whole_body_mode l v) λ _ r h.
        Outcome-split (is_whole_body r.mode && (is_tracking l.whole_body_mode && cfg.vr_client)) _ _
          (λ on.
            let e = is_tracking-eq _ (and_left _ _ (and_right _ _ on)) in
            Outcome-weaken
              (track-IsIn i polled r (tracked r (and_left _ _ on) e (h.0, h.2, h.3) h.1))
              (λ _ q t. (t.0.0, remains t.0.1 (t.1 ∙ sym e), t.0.2, t.0.3)))
          (λ _. gave h)
