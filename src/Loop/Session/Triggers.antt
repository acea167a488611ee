-- ===== src/Loop/Session/Triggers.antt =====
-- The buttons in the whole-body mode (g1_sim2real/src/g1_npz_policy.cpp, `main`).
use grit_deploy_onboard_g.Prelude.{
  ℕ, ◌≡◌, ◌⊎◌, inl, inr, refl, ap, ◌∙◌, Bool, true, false, not, ◌&&◌, ◌||◌, List, is_some, if-split,
  and_left, and_right, Result, Ensures-weaken,
}
use grit_deploy_onboard_g.Floats.{Floats}
use grit_deploy_onboard_g.Grit.{RobotState, GritPolicy, is_standing}
use grit_deploy_onboard_g.Grit.Playback.{play_motion}
use grit_deploy_onboard_g.Grit.Control.{play_motion-IsPolicy}
use grit_deploy_onboard_g.Locomotion.{LocomotionPolicy}
use grit_deploy_onboard_g.Transport.{Command}
use grit_deploy_onboard_g.Loop.{WholeBodyMode, vr_tracking, npz_playback, Mode, LoopConfig, Loop}
use grit_deploy_onboard_g.Loop.Polling.{
  Direction, stay, forward, backward, Edges, Polled, is_whole_body, is_tracking, is_moved,
  request_motion,
}
use grit_deploy_onboard_g.Loop.WholeBody.{
  is_combined, leave_whole_body, toggle, play, request_direction, handle_triggers,
}
use grit_deploy_onboard_g.Stateful.Outcome.{
  Outcome, gave, Outcome-after, Outcome-split, Outcome-weaken,
}
use grit_deploy_onboard_g.Loop.Invariant.{
  IsLoop, runs_whole_body, runs_locomotion, IsRunning, IsTracking, IsTimed, Logged,
}
use grit_deploy_onboard_g.Loop.Quiet.{request_motion-IsAt}
use grit_deploy_onboard_g.Loop.Session.{
  IsIn, IsQuiet, update_grit-IsIn, return_to_stand-IsIn, activate_default-IsIn,
}

-- How the triggers leave the mode: it remains, or a toggle has ended it with both flags down.
pub data Handled {ℓ} {F : Type ℓ} (cfg : LoopConfig F) (toggled : Bool) (w : WholeBodyMode)
    (r : Loop F) : Type 0 where
  remains : r.mode ≡ Mode.whole_body → r.whole_body_mode ≡ w → Handled cfg toggled w r
  switches :
      toggled ≡ true
      → w ≡ vr_tracking
      → is_combined cfg ≡ true
      → r.mode ≡ Mode.whole_body_switching
      → Handled cfg toggled w r
  stops : toggled ≡ true → r.mode ≡ Mode.whole_body_stopping → Handled cfg toggled w r

-- A point after the triggers.
abbrev pub IsHandled {ℓ} :
    {F : Type ℓ}
    → LoopConfig F
    → Bool
    → WholeBodyMode
    → RobotState F
    → List (Command F)
    → Loop F
    → Type ℓ
IsHandled cfg toggled w state sent r =
    IsLoop cfg r × Handled cfg toggled w r × (r.state ≡ state) × (r.transport.sent ≡ sent)

IsTimed-untimed :
    (mode : Mode) {move_step mode_step : ℕ}
    → (mode ≡ Mode.whole_body_switching) ⊎ (mode ≡ Mode.whole_body_stopping)
    → IsTimed mode move_step mode_step
IsTimed-untimed mode (inl e) = record { moves = λ h. cc; blends = λ h. cc; stops = λ h. cc }
IsTimed-untimed mode (inr e) = record { moves = λ h. cc; blends = λ h. cc; stops = λ h. cc }

pub is_tracking-eq : (w : WholeBodyMode) → is_tracking w ≡ true → w ≡ vr_tracking
is_tracking-eq vr_tracking h = refl
is_tracking-eq npz_playback h = cc

-- With nothing that streams or plays, the flags fit any mode.
pub IsTracking-still :
    {vr_client : Bool} {mode : Mode} {w : WholeBodyMode} {streaming playing pending : Bool}
    → (streaming ≡ false) × (playing ≡ false) × (pending ≡ false)
    → (w ≡ vr_tracking → vr_client ≡ true)
    → IsTracking vr_client mode w streaming playing pending
IsTracking-still {streaming = s} {playing = p} {pending = a} e tracks = record {
  streams = λ (on : s ≡ true). cc (e.0);
  asks = λ (on : a ≡ true). cc (e.2);
  plays = λ (on : p ≡ true). cc (e.1);
  tracks = tracks;
}

-- Outside the whole-body mode the flags are down, and fit any other mode.
pub IsTracking-move :
    {vr_client : Bool} {mode next : Mode} {w v : WholeBodyMode} {streaming playing pending : Bool}
    → IsTracking vr_client mode w streaming playing pending
    → is_whole_body mode ≡ false
    → (v ≡ vr_tracking → vr_client ≡ true)
    → IsTracking vr_client next v streaming playing pending
IsTracking-move t off tracks = record {
  streams = λ on. let e = ap is_whole_body (t.streams on).0 in absurd (cc (e, off));
  asks = λ on. let e = ap is_whole_body (t.asks on).0 in absurd (cc (e, off));
  plays = λ on. let e = ap is_whole_body (t.plays on).0 in absurd (cc (e, off));
  tracks = tracks;
}

pub IsRunning-locomotion {ℓ} :
    {F : Type ℓ} {mode next : Mode} {grit : GritPolicy F} {loco : LocomotionPolicy F}
    → IsRunning mode grit loco
    → runs_locomotion mode ≡ true
    → runs_whole_body next ≡ false
    → IsRunning next grit loco
IsRunning-locomotion {next = next} v on off = record {
  configured = v.configured;
  whole_body = λ (h : runs_whole_body next ≡ true). absurd (cc (off, h));
  parts = v.parts;
  ready = λ _. v.ready on;
}

pub IsRunning-whole_body {ℓ} :
    {F : Type ℓ} {mode next : Mode} {grit : GritPolicy F} {loco : LocomotionPolicy F}
    → IsRunning mode grit loco
    → runs_whole_body mode ≡ true
    → runs_locomotion next ≡ false
    → IsRunning next grit loco
IsRunning-whole_body {next = next} v on off = record {
  configured = v.configured;
  whole_body = λ _. v.whole_body on;
  parts = v.parts;
  ready = λ (h : runs_locomotion next ≡ true). absurd (cc (off, h));
}

module _ {ℓ} {F : Type ℓ} ⦃fl : Floats F⦄ (cfg : LoopConfig F) {state : RobotState F}
    {sent : List (Command F)} where
  leave_whole_body-IsHandled :
      {toggled : Bool} (w : WholeBodyMode) (l : Loop F)
      → toggled ≡ true
      → IsIn cfg w state sent l
      → IsQuiet l.grit
      → l.vr_start_pending ≡ false
      → IsHandled cfg toggled w state sent (leave_whole_body cfg (is_tracking w) l)
  unfolding leave_whole_body
  leave_whole_body-IsHandled w l toggled v q off =
      let on : runs_whole_body l.mode ≡ true = ap runs_whole_body v.0.1 in
      if-split (IsHandled cfg _ w state sent) (is_combined cfg && is_tracking w)
        (λ both. (
          (
            IsRunning-whole_body v.0.0.0 on refl,
            IsTracking-still (q.0, q.1, off) (λ h. cc),
            IsTimed-untimed _ (inl refl),
            v.0.0.3,
            v.0.0.4,
            (λ h. cc),
          ),
          switches toggled (is_tracking-eq w (and_right _ _ both)) (and_left _ _ both) refl,
          v.0.2,
          v.0.3,
        ))
        (λ _. (
          (
            IsRunning-whole_body v.0.0.0 on refl,
            IsTracking-still (q.0, q.1, off) v.0.0.1.tracks,
            IsTimed-untimed _ (inr refl),
            v.0.0.3,
            v.0.0.4,
            (λ h. cc),
          ),
          stops toggled refl,
          v.0.2,
          v.0.3,
        ))

  toggle-IsHandled :
      {toggled : Bool} (w : WholeBodyMode) (l : Loop F)
      → toggled ≡ true
      → IsIn cfg w state sent l
      → Outcome
          (λ _. IsHandled cfg toggled w state sent)
          (Logged sent)
          (toggle cfg (is_tracking w) l)
  unfolding toggle
  toggle-IsHandled w l toggled v =
      Outcome-after (return_to_stand-IsIn cfg w l v)
        λ _ r h. gave (leave_whole_body-IsHandled w r toggled h.0 h.1 h.2)

  pub remaining :
      {toggled : Bool} {w : WholeBodyMode} (r : Loop F)
      → IsIn cfg w state sent r
      → IsHandled cfg toggled w state sent r
  remaining r v = (v.0.0, remains v.0.1 v.1, v.0.2, v.0.3)

  -- The request of a motion changes nothing else.
  request_motion-IsIn :
      (ahead : Bool) {w : WholeBodyMode} (l : Loop F)
      → IsIn cfg w state sent l
      → Outcome (λ _. IsIn cfg w state sent) (Logged sent) (request_motion cfg ahead l)
  request_motion-IsIn ahead l v =
      Outcome-weaken (request_motion-IsAt cfg ahead l v.0) (λ _ r h. (h.0, h.1 ∙ v.1))

  -- A motion plays only in the playback mode.
  play-IsIn :
      (l : Loop F)
      → IsIn cfg npz_playback state sent l
      → Outcome (λ _. IsIn cfg npz_playback state sent) (Logged sent) (play l)
  unfolding play
  play-IsIn l v =
      Outcome-split (is_some l.pending_motion_index) _ _ (λ _. gave v)
        λ _.
          Outcome-weaken
            (update_grit-IsIn cfg (λ _. Unit {0}) (play_motion l.state) l v
              λ p. Ensures-weaken (play_motion-IsPolicy l.state l.grit p) λ q h. (
                (
                  h.0,
                  record {
                    streams = λ on. cc (h.2, on);
                    asks = v.0.0.1.asks;
                    plays = λ on. (v.0.1, v.1);
                    tracks = v.0.0.1.tracks;
                  },
                ),
                tt,
              ))
            (λ _ r h. h.0)

  request_direction-IsIn :
      (direction : Direction) {w : WholeBodyMode} (l : Loop F)
      → IsIn cfg w state sent l
      → Outcome (λ _. IsIn cfg w state sent) (Logged sent) (request_direction cfg direction l)
  unfolding request_direction
  request_direction-IsIn stay l v = gave v
  request_direction-IsIn forward l v = request_motion-IsIn true l v
  request_direction-IsIn backward l v = request_motion-IsIn false l v

  -- Those triggers that remain in the mode.
  remain_after :
      {toggled : Bool} {w : WholeBodyMode} {outcome : Loop F × Result (Unit {0})}
      → Outcome (λ _. IsIn cfg w state sent) (Logged sent) outcome
      → Outcome (λ _. IsHandled cfg toggled w state sent) (Logged sent) outcome
  remain_after h = Outcome-weaken h (λ _ r v. remaining r v)

  in_playback :
      (w : WholeBodyMode) (b : Bool) (l : Loop F)
      → (not (is_tracking w) && b) ≡ true
      → IsIn cfg w state sent l
      → Outcome (λ _. IsIn cfg w state sent) (Logged sent) (play l)
  in_playback vr_tracking b l h v = cc
  in_playback npz_playback b l h v = play-IsIn l v

  pub handle_triggers-IsHandled :
      (edges : Edges) (polled : Polled F) (w : WholeBodyMode) (l : Loop F)
      → IsIn cfg w state sent l
      → Outcome
          (λ _.
            IsHandled cfg
              (edges.b_rise || (cfg.vr_client && polled.vr_input.toggle_mode))
              w
              state
              sent)
          (Logged sent)
          (handle_triggers cfg edges polled (is_tracking w) l)
  unfolding handle_triggers
  handle_triggers-IsHandled edges polled w l v =
      Outcome-split (edges.b_rise || (cfg.vr_client && polled.vr_input.toggle_mode)) _ _
        (λ toggled. toggle-IsHandled w l toggled v)
        λ _. remain_after (
          Outcome-split edges.start_rise _ _
            (λ _. Outcome-weaken (return_to_stand-IsIn cfg w l v) (λ _ r h. h.0))
            λ _.
              Outcome-split (cfg.vr_client && polled.vr_input.activate_or_default) _ _
                (λ _. activate_default-IsIn cfg w (is_tracking w) l v)
                λ _.
                  let playback = not (is_tracking w) in
                  let standing = is_standing l.grit in
                  Outcome-split (playback && (edges.left_rise && edges.right_rise)) _ _
                    (λ _. gave v)
                    λ _.
                      Outcome-split (playback && (edges.left_rise && standing)) _ _
                        (λ _. request_motion-IsIn false l v)
                        λ _.
                          Outcome-split (playback && (edges.right_rise && standing)) _ _
                            (λ _. request_motion-IsIn true l v)
                            λ _.
                              Outcome-split
                                (playback && (is_moved polled.pico_motion_direction && standing)) _
                                _ (λ _. request_direction-IsIn polled.pico_motion_direction l v)
                                λ _.
                                  Outcome-split
                                    (playback
                                      && (edges.a_rise
                                          || (cfg.vr_client && polled.vr_input.start_tracking)))
                                    _ _ (λ on. in_playback w _ l on v) (λ _. gave v))
