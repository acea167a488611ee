-- ===== src/Loop/Iterate.antt =====
-- One round of the control loop (g1_sim2real/src/g1_npz_policy.cpp, `main`).
use grit_deploy_onboard_g.Prelude.{◌≡◌, refl, arith, Bool, not, List, inl, inr, Result}
use grit_deploy_onboard_g.Floats.{Floats}
use grit_deploy_onboard_g.Geometry.Totality.{Always}
use grit_deploy_onboard_g.Grit.Invariant.{IsRobotState}
use grit_deploy_onboard_g.Transport.{Command}
use grit_deploy_onboard_g.Loop.{LoopConfig, Inputs, Loop}
use grit_deploy_onboard_g.Loop.Polling.{
  rises, keep_buttons, note_buttons, note_vr, polled_of, poll_vr,
}
use grit_deploy_onboard_g.Loop.Modes.{control, iterate}
use grit_deploy_onboard_g.Stateful.Outcome.{
  Outcome, gave, threw, Outcome-call, Outcome-split, Outcome-weaken,
}
use grit_deploy_onboard_g.Loop.Invariant.{IsLoop, IsInputs, IsLoopConfig, Logged}
use grit_deploy_onboard_g.Loop.Quiet.{note_vr-IsAt}
use grit_deploy_onboard_g.Loop.Drives.{work-IsTurn}
use grit_deploy_onboard_g.Loop.Turns.{IsTurn, rebase}

-- The round's view of the loop: with the state that was received.
abbrev pub received {ℓ} : {F : Type ℓ} → Inputs F → Loop F → Loop F
received i l = record l { state = i.received.0 }

module _ {ℓ} {F : Type ℓ} ⦃fl : Floats F⦄ (delivered : Command F → Bool)
    (run : List F → List F → Result (List F)) (run_locomotion : List F → Result (List F))
    (cfg : LoopConfig F) (safe : (r h : List F) → Always (run r h))
    (safe_locomotion : (o : List F) → Always (run_locomotion o)) (c : IsLoopConfig cfg) where
  control-IsTurn :
      (i : Inputs F) (l : Loop F) {sent : List (Command F)}
      → IsInputs i
      → IsLoop cfg l
      → IsRobotState l.state
      → l.transport.sent ≡ sent
      → Outcome
          (IsTurn cfg (rises l) (polled_of cfg i (keep_buttons l)) l sent i.stop_after_receive)
          (Logged sent)
          (control delivered run run_locomotion cfg i l)
  unfolding control note_buttons poll_vr
  control-IsTurn i l {sent = sent} vi v vs e =
      let kept = keep_buttons l in
      let polled = polled_of cfg i kept in
      let noted = note_vr-IsAt cfg i kept (v, refl, refl, e) in
      Outcome-split polled.vr_input.stop_control _ _ (λ _. gave (noted.0.3, inl refl))
        λ _.
          Outcome-weaken
            (work-IsTurn delivered run run_locomotion cfg safe safe_locomotion c (rises l) polled
              i.stop_after_receive i (note_vr cfg i kept) vi vs noted.0)
            λ turn r h.
              rebase cfg (rises l) polled sent i.stop_after_receive l (note_vr cfg i kept) turn r
                (noted.0.1, noted.0.2) noted.1 h

  -- One round of the loop, whatever the inputs are: it goes on, leaves, or throws something that the
  -- handler catches; it reads nothing out of bounds. A round that goes on keeps the invariant, has sent
  -- one command, and its mode is the old one or one that `Moves` allows. The command has 29 values in
  -- each array, names the time of the state that was received, and enables the motors in every mode but
  -- the zero-torque mode. A round that leaves has sent nothing, and damping was requested or the stop
  -- flag is up; a round that throws has sent one command at most. `receive`, the loader of motions and the
  -- inference library are assumed to throw or to answer with the right sizes.
  pub iterate-IsTurn :
      (i : Inputs F) (l : Loop F)
      → IsInputs i
      → IsLoop cfg l
      → Outcome
          (IsTurn cfg
            (rises (received i l))
            (polled_of cfg i (keep_buttons (received i l)))
            (received i l)
            l.transport.sent
            i.stop_after_receive)
          (Logged l.transport.sent)
          (iterate delivered run run_locomotion cfg i l)
  unfolding iterate
  iterate-IsTurn i l vi v = Outcome-call _ vi.receives (inl refl) λ came robot.
      Outcome-split (not came) _ _
        (λ _.
          Outcome-split i.stop_after_receive _ _ (λ on. gave (refl, inr on))
            (λ _. threw (inl refl)))
        λ here.
          Outcome-split i.received.0.x _ _ (λ _. gave (refl, inl refl))
            λ _. control-IsTurn i (received i l) vi v (robot (ground arith)) refl
