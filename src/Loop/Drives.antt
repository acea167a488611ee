-- ===== src/Loop/Drives.antt =====
-- The command of a round of the control loop (g1_sim2real/src/g1_npz_policy.cpp, `main`), in each mode.
use grit_deploy_onboard_g.Prelude.{
  length-replicate, ◌+◌, ◌≡◌, refl, sym, ap, ◌∙◌, arith, Bool, true, false, List, leb, leb→le, inr,
  if-split, Result,
}
use grit_deploy_onboard_g.Floats.{Floats, float}
use grit_deploy_onboard_g.Geometry.Totality.{Always}
use grit_deploy_onboard_g.Segment.{dof, zip_with, blend}
use grit_deploy_onboard_g.Grit.{RobotState}
use grit_deploy_onboard_g.Grit.Invariant.{IsRobotState}
use mathlib.Core.Path.{subst}
use grit_deploy_onboard_g.Transport.{Command, Transport, Transport}
use grit_deploy_onboard_g.Loop.{Mode, LoopConfig, Inputs, Loop, move_steps}
use grit_deploy_onboard_g.Loop.Polling.{Edges, Polled, is_whole_body}
use grit_deploy_onboard_g.Loop.Modes.{
  zeros, fraction, drive_zero_torque, drive_move_to_default, apply_drive, drive_mode, work, Drive,
}
use grit_deploy_onboard_g.Stateful.Outcome.{
  Outcome, gave, Outcome-after, Outcome-split, Outcome-weaken,
}
use grit_deploy_onboard_g.Loop.Invariant.{IsLoop, IsAt, IsInputs, IsLoopConfig, Logged}
use grit_deploy_onboard_g.Loop.Session.Triggers.{IsTracking-move}
use grit_deploy_onboard_g.Loop.Rounds.{
  counts_rounds, enabled, length-blended, transmit-Outcome, stays, starts, takes_over,
}
use grit_deploy_onboard_g.Loop.Quiet.{poll_loading-IsAt, select_loaded-IsAt}
use grit_deploy_onboard_g.Loop.Rounds.Walking.{
  drive_locomotion_blend-IsDriven, drive_locomotion-IsDriven,
}
use grit_deploy_onboard_g.Loop.Rounds.Standing.{
  drive_stopping_locomotion-IsDriven, drive_whole_body_blend-IsDriven, drive_whole_body-IsDriven,
  drive_switching-IsDriven, drive_stopping-IsDriven,
}
use grit_deploy_onboard_g.Loop.Rounds.Steps.{IsDriven, IsTimed-free, take_locomotion-IsLoop}
use grit_deploy_onboard_g.Loop.Turns.{IsRound, IsTurn, rebase}

module _ {ℓ} {F : Type ℓ} ⦃fl : Floats F⦄ (delivered : Command F → Bool)
    (run : List F → List F → Result (List F)) (run_locomotion : List F → Result (List F))
    (cfg : LoopConfig F) (safe : (r h : List F) → Always (run r h))
    (safe_locomotion : (o : List F) → Always (run_locomotion o)) (c : IsLoopConfig cfg)
    (edges : Edges) (polled : Polled F) {sent : List (Command F)} (stop : Bool) where
  apply_drive-IsRound :
      (l : Loop F) (drive : Drive F) (r : Loop F)
      → enabled l.mode ≡ 1
      → IsDriven cfg edges polled l sent drive r
      → Outcome
          (IsTurn cfg edges polled l sent stop)
          (Logged sent)
          (apply_drive delivered run run_locomotion cfg drive r)
  unfolding apply_drive
  apply_drive-IsRound l drive r on d =
      transmit-Outcome delivered run run_locomotion cfg drive.target drive.kp drive.kd 1 r _ d.4
        λ t e. gave (
          d.1,
          d.3,
          (
            _,
            e,
            record {
              q_size = d.0.target_size;
              qd_size = length-replicate dof (float {F = F} 0);
              kp_size = d.0.kp_size;
              kd_size = d.0.kd_size;
            },
            sym on,
            ap (λ (x : RobotState F). x.receive_time_ns) d.3,
          ),
          d.2,
        )

  drive_zero_torque-IsRound :
      (l : Loop F)
      → IsLoop cfg l
      → IsRobotState l.state
      → l.mode ≡ Mode.zero_torque
      → l.transport.sent ≡ sent
      → Outcome
          (IsTurn cfg edges polled l sent stop)
          (Logged sent)
          (drive_zero_torque delivered run run_locomotion cfg l)
  unfolding drive_zero_torque
  drive_zero_torque-IsRound l v vs m e =
      transmit-Outcome delivered run run_locomotion cfg zeros zeros zeros 0 l _ e λ t et.
        let z = length-replicate dof (float {F = F} 0) in
        gave (
          if-split (IsRound cfg edges polled l sent) l.state.start
            (λ on. (
              (
                record {
                  configured = v.0.configured;
                  whole_body = λ (h : false ≡ true). absurd (cc);
                  parts = v.0.parts;
                  ready = λ (h : false ≡ true). absurd (cc);
                },
                IsTracking-move v.1 (ap is_whole_body m) v.1.tracks,
                IsTimed-free _ (λ h. omega arith) (λ h. cc) (λ h. cc),
                v.3,
                v.4,
                (λ h. vs.q),
              ),
              refl,
              (
                _,
                et,
                record { q_size = z; qd_size = z; kp_size = z; kd_size = z },
                sym (ap enabled m),
                refl,
              ),
              starts m refl on,
            ))
            (λ _. (
              v,
              refl,
              (
                _,
                et,
                record { q_size = z; qd_size = z; kp_size = z; kd_size = z },
                sym (ap enabled m),
                refl,
              ),
              stays refl (λ h. absurd (cc (m, h))) (λ h. absurd (cc (ap counts_rounds m, h))),
            )))

  drive_move_to_default-IsRound :
      (l : Loop F)
      → IsLoop cfg l
      → IsRobotState l.state
      → l.mode ≡ Mode.move_to_default
      → l.transport.sent ≡ sent
      → Outcome
          (IsTurn cfg edges polled l sent stop)
          (Logged sent)
          (drive_move_to_default delivered run run_locomotion cfg l)
  unfolding drive_move_to_default
  drive_move_to_default-IsRound l v vs m e =
      let target = zip_with (blend (fraction l.move_step move_steps)) l.move_start cfg.init_q in
      let n =
        length-blended (blend (fraction l.move_step move_steps)) l.move_start cfg.init_q (v.5 m)
          c.init in
      let z = length-replicate dof (float {F = F} 0) in
      transmit-Outcome delivered run run_locomotion cfg target cfg.locomotion_kp cfg.locomotion_kd 1
        l _ e
        λ t et.
          Outcome-after {Q = λ _ r. IsRound cfg edges polled l sent r}
            (Outcome-split (leb move_steps (l.move_step + 1)) _ _
              (λ full.
                Outcome-weaken
                  (take_locomotion-IsLoop delivered run run_locomotion cfg safe safe_locomotion c
                    edges polled target l.blend_kp_start l.blend_kd_start
                    (record l { transport = t; last_target = target; move_step = l.move_step + 1 })
                    v.0 v.1 v.3 vs (ap is_whole_body m)
                    (record { start_size = n; kp_size = v.4.kp_size; kd_size = v.4.kd_size })
                    (inr (
                      _,
                      et,
                      record {
                        q_size = n;
                        qd_size = z;
                        kp_size = c.locomotion_p;
                        kd_size = c.locomotion_d;
                      },
                    )))
                  λ _ r k. (
                    k.0,
                    k.2,
                    (
                      _,
                      ap (λ (tr : Transport F). tr.sent) k.3 ∙ et,
                      record {
                        q_size = n;
                        qd_size = z;
                        kp_size = c.locomotion_p;
                        kd_size = c.locomotion_d;
                      },
                      sym (ap enabled m),
                      refl,
                    ),
                    takes_over m k.1 (
                        let b = v.2.moves m in
                        omega (arith, leb→le move_steps (l.move_step + 1) full)),
                  ))
              (λ more. gave (
                (v.0, v.1, IsTimed-free _ (λ h. ground arith) (λ h. cc) (λ h. cc), v.3, v.4, v.5),
                refl,
                (
                  _,
                  et,
                  record {
                    q_size = n;
                    qd_size = z;
                    kp_size = c.locomotion_p;
                    kd_size = c.locomotion_d;
                  },
                  sym (ap enabled m),
                  refl,
                ),
                stays refl (λ _. refl) (λ h. absurd (cc (ap counts_rounds m, h))),
              )))
            λ _ r h. gave h

  drive_mode-IsTurn :
      (i : Inputs F) (mode : Mode) (l : Loop F)
      → IsLoop cfg l
      → IsRobotState l.state
      → l.mode ≡ mode
      → l.transport.sent ≡ sent
      → Outcome
          (IsTurn cfg edges polled l sent stop)
          (Logged sent)
          (drive_mode delivered run run_locomotion cfg i edges polled mode l)
  unfolding drive_mode
  drive_mode-IsTurn i Mode.zero_torque l v vs m e = drive_zero_torque-IsRound l v vs m e
  drive_mode-IsTurn i Mode.move_to_default l v vs m e = drive_move_to_default-IsRound l v vs m e
  drive_mode-IsTurn i Mode.locomotion_blend l v vs m e =
      Outcome-after
        (drive_locomotion_blend-IsDriven delivered run run_locomotion cfg safe safe_locomotion c
          edges polled l v vs m e)
        λ d r h. apply_drive-IsRound l d r (ap enabled m) h
  drive_mode-IsTurn i Mode.locomotion l v vs m e =
      Outcome-after
        (drive_locomotion-IsDriven delivered run run_locomotion cfg safe safe_locomotion c edges
          polled l v vs m e)
        λ d r h. apply_drive-IsRound l d r (ap enabled m) h
  drive_mode-IsTurn i Mode.locomotion_stopping l v vs m e =
      Outcome-after
        (drive_stopping_locomotion-IsDriven delivered run run_locomotion cfg safe safe_locomotion c
          edges polled l v vs m e)
        λ d r h. apply_drive-IsRound l d r (ap enabled m) h
  drive_mode-IsTurn i Mode.whole_body_blend l v vs m e =
      Outcome-after
        (drive_whole_body_blend-IsDriven delivered run run_locomotion cfg safe safe_locomotion c
          edges polled l v vs m e)
        λ d r h. apply_drive-IsRound l d r (ap enabled m) h
  drive_mode-IsTurn i Mode.whole_body l v vs m e =
      Outcome-after
        (drive_whole_body-IsDriven delivered run run_locomotion cfg safe safe_locomotion c edges
          polled i l v vs m e)
        λ d r h. apply_drive-IsRound l d r (ap enabled m) h
  drive_mode-IsTurn i Mode.whole_body_switching l v vs m e =
      Outcome-after
        (drive_switching-IsDriven delivered run run_locomotion cfg safe safe_locomotion c edges
          polled l v vs m e)
        λ d r h. apply_drive-IsRound l d r (ap enabled m) h
  drive_mode-IsTurn i Mode.whole_body_stopping l v vs m e =
      Outcome-after
        (drive_stopping-IsDriven delivered run run_locomotion cfg safe safe_locomotion c edges
          polled l v vs m e)
        λ d r h. apply_drive-IsRound l d r (ap enabled m) h

  pub work-IsTurn :
      (i : Inputs F) {mode : Mode} {state : RobotState F} (l : Loop F)
      → IsInputs i
      → IsRobotState state
      → IsAt cfg mode state sent l
      → Outcome
          (IsTurn cfg edges polled l sent stop)
          (Logged sent)
          (work delivered run run_locomotion cfg i edges polled l)
  unfolding work
  work-IsTurn i l vi vs v = Outcome-after (poll_loading-IsAt cfg i.load_done l vi.loads v) λ _ a va.
      Outcome-after (select_loaded-IsAt cfg a va.0) λ _ b vb.
        Outcome-weaken
          (drive_mode-IsTurn i b.mode b vb.0.0 (subst IsRobotState (sym vb.0.2) vs) refl vb.0.3)
          λ turn r h.
            rebase cfg edges polled sent stop l b turn r (vb.0.1 ∙ sym v.1, vb.0.2 ∙ sym v.2)
              (vb.1.0 ∙ va.1.0, vb.1.1 ∙ va.1.1, vb.1.2 ∙ va.1.2) h
