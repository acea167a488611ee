-- ===== src/Loop/Session.antt =====
-- The branch for the whole-body mode (g1_sim2real/src/g1_npz_policy.cpp, `main`) keeps the invariant,
-- and leaves the mode by a toggle alone.
pub mod Triggers
use grit_deploy_onboard_g.Prelude.{
  ℕ, ◌≡◌, ◌⊎◌, inl, inr, refl, ap, ◌∙◌, Bool, true, false, not, ◌&&◌, ◌||◌, List, is_some,
  if◌then◌else◌, if-split, Bool-cases, and_left, and_right, Result, Ensures, Ensures-split,
  Ensures-weaken,
}
use grit_deploy_onboard_g.Floats.{Floats}
use grit_deploy_onboard_g.Grit.{RobotState, GritPolicy, is_standing}
use grit_deploy_onboard_g.Grit.Playback.{return_default, play_motion}
use grit_deploy_onboard_g.Grit.Stream.{stop_vr}
use grit_deploy_onboard_g.Grit.Invariant.{IsPolicy, return_default-IsPolicy}
use grit_deploy_onboard_g.Grit.Control.{play_motion-IsPolicy}
use grit_deploy_onboard_g.Grit.Session.{stop_vr-IsPolicy}
use grit_deploy_onboard_g.Locomotion.{LocomotionPolicy}
use grit_deploy_onboard_g.Transport.{Command}
use grit_deploy_onboard_g.Loop.{WholeBodyMode, vr_tracking, npz_playback, Mode, LoopConfig, Loop}
use grit_deploy_onboard_g.Loop.Polling.{
  Direction, stay, forward, backward, Edges, Polled, is_whole_body, is_tracking, is_moved,
  request_motion,
}
use grit_deploy_onboard_g.Loop.WholeBody.{
  is_combined, update_grit, forget_request, leave_whole_body, stop_or_return, return_to_stand,
  activate_default, toggle, play, request_direction, handle_triggers,
}
use grit_deploy_onboard_g.Stateful.Outcome.{
  Outcome, gave, Outcome-after, Outcome-call, Outcome-split, Outcome-weaken,
}
use grit_deploy_onboard_g.Loop.Invariant.{
  IsLoop, IsAt, runs_whole_body, runs_locomotion, IsRunning, IsTracking, IsTimed, Logged,
}
use grit_deploy_onboard_g.Loop.Quiet.{request_motion-IsAt}

-- A point of the whole-body mode.
abbrev pub IsIn {ℓ} :
    {F : Type ℓ} → LoopConfig F → WholeBodyMode → RobotState F → List (Command F) → Loop F → Type ℓ
IsIn cfg w state sent r = IsAt cfg Mode.whole_body state sent r × (r.whole_body_mode ≡ w)

abbrev pub TracksWith {ℓ} : {F : Type ℓ} → LoopConfig F → Loop F → GritPolicy F → Type 0
TracksWith cfg l q =
    IsTracking cfg.vr_client l.mode l.whole_body_mode q.vr_streaming q.playing_motion
      l.vr_start_pending

-- No stream and no motion.
abbrev pub IsQuiet {ℓ} : {F : Type ℓ} → GritPolicy F → Type 0
IsQuiet q = (q.vr_streaming ≡ false) × (q.playing_motion ≡ false)

IsTracking-quiet :
    {vr_client : Bool} {mode : Mode} {w : WholeBodyMode} {streaming playing s p pending : Bool}
    → IsTracking vr_client mode w streaming playing pending
    → (s ≡ false) × (p ≡ false)
    → IsTracking vr_client mode w s p pending
IsTracking-quiet {s = s} {p = p} v e = record {
  streams = λ (on : s ≡ true). cc (e.0);
  asks = v.asks;
  plays = λ (on : p ≡ true). cc (e.1);
  tracks = v.tracks;
}

IsTracking-forget :
    {vr_client : Bool} {mode : Mode} {w : WholeBodyMode} {streaming playing pending : Bool}
    → IsTracking vr_client mode w streaming playing pending
    → IsTracking vr_client mode w streaming playing false
IsTracking-forget v = record {
  streams = v.streams;
  asks = λ (on : false ≡ true). cc;
  plays = v.plays;
  tracks = v.tracks;
}

module _ {ℓ} {F : Type ℓ} (cfg : LoopConfig F) {w : WholeBodyMode} {state : RobotState F}
    {sent : List (Command F)} where
  pub with_grit-IsIn :
      (l : Loop F) (q : GritPolicy F)
      → IsIn cfg w state sent l
      → IsPolicy q
      → TracksWith cfg l q
      → IsIn cfg w state sent (record l { grit = q })
  with_grit-IsIn l q v p t = (
    (
      (
        record {
          configured = p.configured;
          whole_body = λ _. p;
          parts = v.0.0.0.parts;
          ready = v.0.0.0.ready;
        },
        t,
        v.0.0.2,
        v.0.0.3,
        v.0.0.4,
        v.0.0.5,
      ),
      v.0.1,
      v.0.2,
      v.0.3,
    ),
    v.1,
  )

  pub update_grit-IsIn {κ} :
      (P : GritPolicy F → Type κ) (operation : GritPolicy F → Result (GritPolicy F)) (l : Loop F)
      → IsIn cfg w state sent l
      → (IsPolicy l.grit
          → Ensures (λ q. (IsPolicy q × TracksWith cfg l q) × P q) (operation l.grit))
      → Outcome
          (λ _ r. IsIn cfg w state sent r × P r.grit × (r.vr_start_pending ≡ l.vr_start_pending))
          (Logged sent)
          (update_grit operation l)
  update_grit-IsIn P operation l v h =
      let policy = v.0.0.0.whole_body (rw v.0.1) in
      Outcome-call _ (h policy) (inl v.0.3)
        λ q p. gave (with_grit-IsIn l q v p.0.0 p.0.1, p.1, refl)

  pub forget_request-IsIn :
      (l : Loop F) → IsIn cfg w state sent l → IsIn cfg w state sent (forget_request l)
  forget_request-IsIn l v = (
    ((
      (v.0.0.0, IsTracking-forget v.0.0.1, v.0.0.2, v.0.0.3, v.0.0.4, v.0.0.5),
      v.0.1,
      v.0.2,
      v.0.3,
    )),
    v.1,
  )

module _ {ℓ} {F : Type ℓ} ⦃fl : Floats F⦄ where
  return_default-IsQuiet :
      (p : GritPolicy F) → IsPolicy p → Ensures (λ q. IsPolicy q × IsQuiet q) (return_default p)
  return_default-IsQuiet p v =
      Ensures-weaken (return_default-IsPolicy p v) (λ q h. (h.0, (h.2, h.1)))

  -- Where VR was streaming, stopping it leaves no motion either.
  stop_vr-IsQuiet :
      (p : GritPolicy F)
      → p.vr_streaming ≡ true
      → IsPolicy p
      → Ensures (λ q. IsPolicy q × IsQuiet q) (stop_vr p)
  stop_vr-IsQuiet p on v = Ensures-weaken (stop_vr-IsPolicy p v) (λ q h. (h.0, (h.1, (h.3 on).0)))

  stop_or_return-IsQuiet :
      (p : GritPolicy F) → IsPolicy p → Ensures (λ q. IsPolicy q × IsQuiet q) (stop_or_return p)
  unfolding stop_or_return
  stop_or_return-IsQuiet p v =
      Ensures-split p.vr_streaming (λ on. stop_vr-IsQuiet p on v) (λ _. return_default-IsQuiet p v)

  module _ (cfg : LoopConfig F) {state : RobotState F} {sent : List (Command F)} where
    -- An operation after which nothing streams or plays.
    quieten-IsIn :
        {w : WholeBodyMode} (operation : GritPolicy F → Result (GritPolicy F)) (l : Loop F)
        → IsIn cfg w state sent l
        → (IsPolicy l.grit → Ensures (λ q. IsPolicy q × IsQuiet q) (operation l.grit))
        → Outcome
            (λ _ r.
              IsIn cfg w state sent r × IsQuiet r.grit × (r.vr_start_pending ≡ l.vr_start_pending))
            (Logged sent)
            (update_grit operation l)
    quieten-IsIn operation l v h =
        update_grit-IsIn cfg IsQuiet operation l v
          λ p. Ensures-weaken (h p) (λ q t. ((t.0, IsTracking-quiet v.0.0.1 t.1), t.1))

    -- Asking is for tracking alone.
    not_asking : (l : Loop F) → IsIn cfg npz_playback state sent l → l.vr_start_pending ≡ false
    not_asking l v = elim (Bool-cases l.vr_start_pending) [
      | inl on ↦ let t = v.0.0.1.asks on in cc (t.1, v.1)
      | inr off ↦ off
    ]

    pub return_to_stand-IsIn :
        (w : WholeBodyMode) (l : Loop F)
        → IsIn cfg w state sent l
        → Outcome
            (λ _ r. IsIn cfg w state sent r × IsQuiet r.grit × (r.vr_start_pending ≡ false))
            (Logged sent)
            (return_to_stand (is_tracking w) l)
    unfolding return_to_stand
    return_to_stand-IsIn vr_tracking l v =
        quieten-IsIn stop_or_return (forget_request l) (forget_request-IsIn cfg l v)
          (stop_or_return-IsQuiet l.grit)
    return_to_stand-IsIn npz_playback l v =
        Outcome-weaken (quieten-IsIn return_default l v (return_default-IsQuiet l.grit))
          (λ _ r h. (h.0, h.1, h.2 ∙ not_asking l v))

    pub activate_default-IsIn :
        (w : WholeBodyMode) (vr_mode : Bool) (l : Loop F)
        → IsIn cfg w state sent l
        → Outcome (λ _. IsIn cfg w state sent) (Logged sent) (activate_default vr_mode l)
    unfolding activate_default
    activate_default-IsIn w vr_mode l v =
        Outcome-weaken
          (quieten-IsIn
            (λ grit. if vr_mode && grit.vr_streaming then stop_vr grit else return_default grit)
            (forget_request l) (forget_request-IsIn cfg l v)
            λ p.
              Ensures-split (vr_mode && l.grit.vr_streaming)
                (λ on. stop_vr-IsQuiet l.grit (and_right _ _ on) p)
                (λ _. return_default-IsQuiet l.grit p))
          (λ _ r h. h.0)
