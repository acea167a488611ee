-- ===== src/Loop/Rounds/Entering.antt =====
-- Entering a mode of the whole-body policy (g1_sim2real/src/g1_npz_policy.cpp, `main`).
use grit_deploy_onboard_g.Prelude.{
  ℕ, ◌≡◌, ◌⊎◌, refl, sym, ap, ◌∙◌, Bool, true, false, ◌&&◌, ◌||◌, List, inl, inr, Result,
}
use grit_deploy_onboard_g.Floats.{Floats}
use grit_deploy_onboard_g.Geometry.Totality.{Always}
use grit_deploy_onboard_g.Grit.{GritPolicy}
use grit_deploy_onboard_g.Transport.{Command, Transport, announce_mode, announce}
use grit_deploy_onboard_g.Loop.{WholeBodyMode, vr_tracking, npz_playback, Mode, LoopConfig, Loop}
use grit_deploy_onboard_g.Loop.Polling.{Edges, Polled, is_whole_body}
use grit_deploy_onboard_g.Loop.Modes.{whole_body_announced}
use grit_deploy_onboard_g.Loop.Invariant.{runs_whole_body, IsLoop, IsLoopConfig, IsTimed}
use grit_deploy_onboard_g.Loop.Session.Triggers.{
  IsTracking-move, IsRunning-whole_body, Handled, remains, switches, stops,
}
use grit_deploy_onboard_g.Loop.Rounds.{counts_rounds, Moves, Transition, stays, toggles}
use grit_deploy_onboard_g.Loop.Rounds.Steps.{IsTimed-free}

-- A step in a mode that is not timed here.
pub untimed_step :
    {mode : Mode} {move_step mode_step next : ℕ}
    → IsTimed mode move_step mode_step
    → (mode ≡ Mode.whole_body_blend) ⊎ (mode ≡ Mode.whole_body_stopping)
    → IsTimed mode move_step next
untimed_step v (inl m) = IsTimed-free _ (λ h. cc) (λ h. cc) (λ h. cc)
untimed_step v (inr m) = IsTimed-free _ (λ h. cc) (λ h. cc) (λ h. cc)

module _ {ℓ} {F : Type ℓ} ⦃fl : Floats F⦄ (delivered : Command F → Bool)
    (run : List F → List F → Result (List F)) (run_locomotion : List F → Result (List F))
    (cfg : LoopConfig F) (safe : (r h : List F) → Always (run r h))
    (safe_locomotion : (o : List F) → Always (run_locomotion o)) (c : IsLoopConfig cfg)
    (edges : Edges) (polled : Polled F) where
  -- The whole-body mode is entered with the flags down.
  pub enter-IsLoop :
      (r : Loop F)
      → IsLoop cfg r
      → runs_whole_body r.mode ≡ true
      → is_whole_body r.mode ≡ false
      → IsLoop cfg (record r { mode = Mode.whole_body })
  enter-IsLoop r v on off = (
    IsRunning-whole_body v.0 on refl,
    IsTracking-move v.1 off v.1.tracks,
    IsTimed-free _ (λ h. cc) (λ h. cc) (λ h. cc),
    v.3,
    v.4,
    (λ h. cc),
  )

  -- From the triggers of the whole-body mode to the step.
  pub Handled-running :
      {toggled : Bool} {w : WholeBodyMode} (r : Loop F)
      → Handled cfg toggled w r
      → runs_whole_body r.mode ≡ true
  Handled-running r (remains m _) = ap runs_whole_body m
  Handled-running r (switches _ _ _ m) = ap runs_whole_body m
  Handled-running r (stops _ m) = ap runs_whole_body m

  pub Handled-Transition :
      (l r : Loop F) (q : GritPolicy F)
      → l.mode ≡ Mode.whole_body
      → Handled cfg
          (edges.b_rise || (cfg.vr_client && polled.vr_input.toggle_mode))
          l.whole_body_mode
          r
      → Transition cfg edges polled l (record r { grit = q })
  Handled-Transition l r q m (remains m' _) =
      stays (m' ∙ sym m) (λ h. absurd (cc (m, h))) (λ h. absurd (cc (ap counts_rounds m, h)))
  Handled-Transition l r q m (switches on w both m') = Moves.switches m m' on w both
  Handled-Transition l r q m (stops on m') = toggles m m' on

  pub sent-whole_body_announced :
      (w : WholeBodyMode) (t : Transport F)
      → (whole_body_announced delivered run run_locomotion cfg w t).sent ≡ t.sent
  unfolding announce_mode announce
  sent-whole_body_announced vr_tracking t = refl
  sent-whole_body_announced npz_playback t = refl
