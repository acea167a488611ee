-- ===== src/Loop/Rounds/Standing.antt =====
-- The modes that run the whole-body policy (g1_sim2real/src/g1_npz_policy.cpp, `main`), up to the command.
use grit_deploy_onboard_g.Prelude.{
  ◌+◌, ◌≡◌, refl, sym, ap, ◌∙◌, arith, Bool, true, false, List, leb, leb→le, inl, inr, if-split,
  Result,
}
use grit_deploy_onboard_g.Floats.{Floats}
use grit_deploy_onboard_g.Geometry.Totality.{Always}
use grit_deploy_onboard_g.Grit.{is_standing}
use grit_deploy_onboard_g.Grit.Invariant.{IsRobotState}
use grit_deploy_onboard_g.Grit.Control.{initialize_default-idle}
use mathlib.Core.Path.{subst}
use grit_deploy_onboard_g.Transport.{Command, Transport, announce_mode, announce}
use grit_deploy_onboard_g.Loop.{Mode, LoopConfig, Inputs, Loop, locomotion_stop_steps}
use grit_deploy_onboard_g.Loop.Polling.{Edges, Polled, is_whole_body}
use grit_deploy_onboard_g.Loop.Modes.{
  Drive, locomotion_drive, whole_body_drive, drive_locomotion_stopping, enter_whole_body,
  drive_whole_body_blend, drive_whole_body, enter_playback, drive_switching, drive_stopping,
}
use grit_deploy_onboard_g.Stateful.Outcome.{
  Outcome, gave, Outcome-after, Outcome-call, Outcome-split,
}
use grit_deploy_onboard_g.Loop.Invariant.{
  runs_whole_body, runs_locomotion, IsLoop, IsLoopConfig, Logged,
}
use grit_deploy_onboard_g.Loop.Session.Triggers.{IsTracking-still}
use grit_deploy_onboard_g.Loop.Stream.{control_whole_body-IsHandled}
use grit_deploy_onboard_g.Loop.Rounds.{
  counts_rounds, IsDrive, Transition, stays, hands_over, settles, stands, returns,
  length-blend_values,
}
use grit_deploy_onboard_g.Loop.Rounds.Steps.{
  IsDriven, IsTimed-free, step_locomotion-then, step_whole_body-then, take_locomotion-IsLoop,
  not_asked,
}
use grit_deploy_onboard_g.Loop.Rounds.Entering.{
  untimed_step, enter-IsLoop, Handled-running, Handled-Transition, sent-whole_body_announced,
}

module _ {ℓ} {F : Type ℓ} ⦃fl : Floats F⦄ (delivered : Command F → Bool)
    (run : List F → List F → Result (List F)) (run_locomotion : List F → Result (List F))
    (cfg : LoopConfig F) (safe : (r h : List F) → Always (run r h))
    (safe_locomotion : (o : List F) → Always (run_locomotion o)) (c : IsLoopConfig cfg)
    (edges : Edges) (polled : Polled F) {sent : List (Command F)} where
  pub drive_stopping_locomotion-IsDriven :
      (l : Loop F)
      → IsLoop cfg l
      → IsRobotState l.state
      → l.mode ≡ Mode.locomotion_stopping
      → l.transport.sent ≡ sent
      → Outcome
          (IsDriven cfg edges polled l sent)
          (Logged sent)
          (drive_locomotion_stopping delivered run run_locomotion cfg polled l)
  unfolding drive_locomotion_stopping
  drive_stopping_locomotion-IsDriven l v vs m e =
      step_locomotion-then delivered run run_locomotion cfg safe safe_locomotion c edges polled true
        l _ v vs (ap runs_locomotion m) e
        λ target q n vq.
          let drive : IsDrive (locomotion_drive delivered run run_locomotion cfg target) = record {
            target_size = n;
            kp_size = c.locomotion_p;
            kd_size = c.locomotion_d;
          } in
          Outcome-after
            {Q = λ _ r.
              IsLoop cfg r
              × Transition cfg edges polled l r
              × (r.state ≡ l.state)
              × (r.transport.sent ≡ sent)}
            (Outcome-split (leb locomotion_stop_steps (l.mode_step + 1)) _ _
              (λ full.
                Outcome-call _ (initialize_default-idle l.state l.grit vs v.0.configured) (inl e)
                  λ grit t. gave (
                    (
                      record {
                        configured = t.0.configured;
                        whole_body = λ _. t.0;
                        parts = vq.0.parts;
                        ready = λ (on : false ≡ true). absurd (cc);
                      },
                      IsTracking-still
                          (t.1, t.2, not_asked l.vr_start_pending v.1 (ap is_whole_body m))
                          v.1.tracks,
                      IsTimed-free _ (λ h. cc) (λ h. cc) (λ h. cc),
                      v.3,
                      record { start_size = n; kp_size = c.locomotion_p; kd_size = c.locomotion_d },
                      (λ h. cc),
                    ),
                    hands_over m refl (
                        let b = v.2.stops m in
                        omega (arith, leb→le locomotion_stop_steps (l.mode_step + 1) full)),
                    refl,
                    e,
                  ))
              (λ few. gave (
                (
                  vq.0,
                  vq.1,
                  IsTimed-free _ v.2.moves (λ h. cc) (λ h. ground arith),
                  vq.3,
                  vq.4,
                  vq.5,
                ),
                stays refl (λ h. absurd (cc (m, h))) (λ _. refl),
                refl,
                e,
              )))
            λ _ r h. gave (drive, h.0, h.1, h.2, h.3)

  enter_whole_body-IsDriven :
      (l r : Loop F) (drive : Drive F)
      → IsDrive drive
      → IsLoop cfg r
      → (r.mode_step ≡ l.mode_step + 1)
        × (r.mode ≡ l.mode)
        × (l.mode ≡ Mode.whole_body_blend)
        × (r.state ≡ l.state)
        × (r.transport.sent ≡ sent)
      → IsDriven cfg edges polled l sent drive (enter_whole_body delivered run run_locomotion cfg r)
  unfolding enter_whole_body
  enter_whole_body-IsDriven l r drive d v k =
      let m = k.1 ∙ k.2 in
      if-split (IsDriven cfg edges polled l sent drive)
        (leb (r.grit.transition_steps + 25) r.mode_step)
        (λ full. (
          d,
          enter-IsLoop delivered run run_locomotion cfg safe safe_locomotion c edges polled r v
              (ap runs_whole_body m) (ap is_whole_body m),
          settles k.2 refl
              (omega (arith, leb→le (r.grit.transition_steps + 25) r.mode_step full, k.0)),
          k.3,
          sent-whole_body_announced delivered run run_locomotion cfg safe safe_locomotion c edges
                polled r.whole_body_mode r.transport
              ∙ k.4,
        ))
        (λ _. (d, v, stays k.1 (λ h. absurd (cc (k.2, h))) (λ _. k.0), k.3, k.4))

  pub drive_whole_body_blend-IsDriven :
      (l : Loop F)
      → IsLoop cfg l
      → IsRobotState l.state
      → l.mode ≡ Mode.whole_body_blend
      → l.transport.sent ≡ sent
      → Outcome
          (IsDriven cfg edges polled l sent)
          (Logged sent)
          (drive_whole_body_blend delivered run run_locomotion cfg l)
  unfolding drive_whole_body_blend
  drive_whole_body_blend-IsDriven l v vs m e =
      step_whole_body-then delivered run run_locomotion cfg safe safe_locomotion c edges polled l _
        v vs (ap runs_whole_body m) e
        λ target q n vq calm. gave (
          enter_whole_body-IsDriven l _ _
            (record {
              target_size = length-blend_values l.blend_start target l.mode_step v.4.start_size n;
              kp_size =
                  length-blend_values l.blend_kp_start _ l.mode_step v.4.kp_size c.whole_body_p;
              kd_size =
                  length-blend_values l.blend_kd_start _ l.mode_step v.4.kd_size c.whole_body_d;
            })
            (vq.0, vq.1, untimed_step v.2 (inl m), vq.3, vq.4, vq.5) (refl, refl, m, refl, e))

  pub drive_whole_body-IsDriven :
      (i : Inputs F) (l : Loop F)
      → IsLoop cfg l
      → IsRobotState l.state
      → l.mode ≡ Mode.whole_body
      → l.transport.sent ≡ sent
      → Outcome
          (IsDriven cfg edges polled l sent)
          (Logged sent)
          (drive_whole_body delivered run run_locomotion cfg i edges polled l)
  unfolding drive_whole_body
  drive_whole_body-IsDriven i l v vs m e =
      Outcome-after (control_whole_body-IsHandled cfg i edges polled l ((v, m, refl, e), refl))
        λ _ r h.
          step_whole_body-then delivered run run_locomotion cfg safe safe_locomotion c edges polled
            r _ h.0 (subst IsRobotState (sym h.2) vs)
            (Handled-running delivered run run_locomotion cfg safe safe_locomotion c edges polled r
              h.1)
            h.3
            λ target q n vq calm. gave (
              record { target_size = n; kp_size = c.whole_body_p; kd_size = c.whole_body_d },
              vq,
              Handled-Transition delivered run run_locomotion cfg safe safe_locomotion c edges
                  polled l r q m h.1,
              h.2,
              h.3,
            )

  pub drive_switching-IsDriven :
      (l : Loop F)
      → IsLoop cfg l
      → IsRobotState l.state
      → l.mode ≡ Mode.whole_body_switching
      → l.transport.sent ≡ sent
      → Outcome
          (IsDriven cfg edges polled l sent)
          (Logged sent)
          (drive_switching delivered run run_locomotion cfg l)
  unfolding drive_switching enter_playback announce_mode announce
  drive_switching-IsDriven l v vs m e =
      step_whole_body-then delivered run run_locomotion cfg safe safe_locomotion c edges polled l _
        v vs (ap runs_whole_body m) e
        λ target q n vq calm.
          let drive : IsDrive (whole_body_drive delivered run run_locomotion cfg target) = record {
            target_size = n;
            kp_size = c.whole_body_p;
            kd_size = c.whole_body_d;
          } in
          gave (
            if-split (IsDriven cfg edges polled l sent _) (is_standing q)
              (λ on. (
                drive,
                enter-IsLoop delivered run run_locomotion cfg safe safe_locomotion c edges polled
                    (record l { grit = q }) vq (ap runs_whole_body m) (ap is_whole_body m),
                stands m refl on,
                refl,
                e,
              ))
              (λ _. (
                drive,
                vq,
                stays refl (λ h. absurd (cc (m, h))) (λ h. absurd (cc (ap counts_rounds m, h))),
                refl,
                e,
              )))

  pub drive_stopping-IsDriven :
      (l : Loop F)
      → IsLoop cfg l
      → IsRobotState l.state
      → l.mode ≡ Mode.whole_body_stopping
      → l.transport.sent ≡ sent
      → Outcome
          (IsDriven cfg edges polled l sent)
          (Logged sent)
          (drive_stopping delivered run run_locomotion cfg l)
  unfolding drive_stopping
  drive_stopping-IsDriven l v vs m e =
      step_whole_body-then delivered run run_locomotion cfg safe safe_locomotion c edges polled l _
        v vs (ap runs_whole_body m) e
        λ target q n vq calm.
          let drive : IsDrive (whole_body_drive delivered run run_locomotion cfg target) = record {
            target_size = n;
            kp_size = c.whole_body_p;
            kd_size = c.whole_body_d;
          } in
          let counted = record l { grit = q; mode_step = l.mode_step + 1 } in
          let counted_loop : IsLoop cfg counted =
            (vq.0, vq.1, untimed_step v.2 (inr m), vq.3, vq.4, vq.5) in
          Outcome-after
            {Q = λ _ r.
              IsLoop cfg r
              × Transition cfg edges polled l r
              × (r.state ≡ l.state)
              × (r.transport.sent ≡ sent)}
            (Outcome-split (leb (q.transition_steps + 25) (l.mode_step + 1)) _ _
              (λ full.
                Outcome-after
                  (take_locomotion-IsLoop delivered run run_locomotion cfg safe safe_locomotion c
                    edges polled target cfg.whole_body_kp cfg.whole_body_kd counted vq.0 vq.1 vq.3
                    vs (ap is_whole_body m)
                    (record { start_size = n; kp_size = c.whole_body_p; kd_size = c.whole_body_d })
                    (inl e))
                  λ _ r t. gave (
                    t.0,
                    returns m t.1 (rw t.4 (leb→le _ _ full)),
                    t.2,
                    ap (λ (tr : Transport F). tr.sent) t.3 ∙ e,
                  ))
              (λ _. gave (counted_loop, stays refl (λ h. absurd (cc (m, h))) (λ _. refl), refl, e)))
            λ _ r h. gave (drive, h.0, h.1, h.2, h.3)
