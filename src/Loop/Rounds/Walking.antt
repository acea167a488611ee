-- ===== src/Loop/Rounds/Walking.antt =====
-- The modes that run the locomotion policy (g1_sim2real/src/g1_npz_policy.cpp, `main`), up to the command.
use grit_deploy_onboard_g.Prelude.{
  ◌≡◌, refl, sym, ap, ◌∙◌, arith, Bool, true, false, ◌&&◌, ◌||◌, List, leb, leb→le, if-split,
  if◌then◌else◌, and_left, and_right, Result,
}
use grit_deploy_onboard_g.Floats.{Floats}
use grit_deploy_onboard_g.Geometry.Totality.{Always}
use grit_deploy_onboard_g.Grit.Invariant.{IsRobotState}
use grit_deploy_onboard_g.Locomotion.{sticks_neutral}
use grit_deploy_onboard_g.Transport.{Command, announce_mode, announce}
use grit_deploy_onboard_g.Loop.{WholeBodyMode, vr_tracking, Mode, LoopConfig, Loop, blend_steps}
use grit_deploy_onboard_g.Stateful.{after, give}
use grit_deploy_onboard_g.Loop.Polling.{Edges, Polled, is_whole_body}
use grit_deploy_onboard_g.Loop.WholeBody.{is_combined}
use grit_deploy_onboard_g.Loop.Modes.{
  Drive, step_locomotion, enter_locomotion, drive_locomotion_blend, wants_whole_body,
  stop_locomotion, locomotion_drive, drive_locomotion,
}
use grit_deploy_onboard_g.Stateful.Outcome.{Outcome, gave}
use grit_deploy_onboard_g.Loop.Invariant.{runs_locomotion, IsLoop, IsLoopConfig, Logged}
use grit_deploy_onboard_g.Loop.Session.Triggers.{IsTracking-move, IsRunning-locomotion}
use grit_deploy_onboard_g.Loop.Rounds.{
  counts_rounds, IsDrive, stays, centres, brakes, length-blend_in,
}
use grit_deploy_onboard_g.Loop.Rounds.Steps.{IsDriven, IsTimed-free, step_locomotion-then}

module _ {ℓ} {F : Type ℓ} ⦃fl : Floats F⦄ (delivered : Command F → Bool)
    (run : List F → List F → Result (List F)) (run_locomotion : List F → Result (List F))
    (cfg : LoopConfig F) (safe : (r h : List F) → Always (run r h))
    (safe_locomotion : (o : List F) → Always (run_locomotion o)) (c : IsLoopConfig cfg)
    (edges : Edges) (polled : Polled F) where
  stop_locomotion-IsLoop :
      (l : Loop F)
      → IsLoop cfg l
      → l.mode ≡ Mode.locomotion
      → IsLoop cfg (stop_locomotion delivered run run_locomotion cfg l)
  stop_locomotion-IsLoop l v m = (
    IsRunning-locomotion v.0 (ap runs_locomotion m) refl,
    IsTracking-move v.1 (ap is_whole_body m) (
        if-split (λ (w : WholeBodyMode). w ≡ vr_tracking → cfg.vr_client ≡ true) (is_combined cfg)
          (λ on h. and_left _ _ on) (λ _. v.1.tracks)),
    IsTimed-free _ (λ h. cc) (λ h. cc) (λ h. omega arith),
    v.3,
    v.4,
    (λ h. cc),
  )

module _ {ℓ} {F : Type ℓ} ⦃fl : Floats F⦄ (delivered : Command F → Bool)
    (run : List F → List F → Result (List F)) (run_locomotion : List F → Result (List F))
    (cfg : LoopConfig F) (safe : (r h : List F) → Always (run r h))
    (safe_locomotion : (o : List F) → Always (run_locomotion o)) (c : IsLoopConfig cfg)
    (edges : Edges) (polled : Polled F) {sent : List (Command F)} where
  enter_locomotion-IsDriven :
      (l r : Loop F) (drive : Drive F)
      → IsDrive drive
      → IsLoop cfg r
      → r.mode ≡ l.mode
      → r.mode ≡ Mode.locomotion_blend
      → (r.state ≡ l.state) × (r.transport.sent ≡ sent)
      → IsDriven cfg edges polled l sent drive
          (enter_locomotion delivered run run_locomotion cfg polled r)
  unfolding enter_locomotion announce_mode announce
  enter_locomotion-IsDriven l r drive d v e m k =
      if-split (IsDriven cfg edges polled l sent drive)
        (leb blend_steps r.mode_step && sticks_neutral r.state polled.pico_sticks)
        (λ on. (
          d,
          (
            IsRunning-locomotion v.0 (ap runs_locomotion m) refl,
            IsTracking-move v.1 (ap is_whole_body m) v.1.tracks,
            IsTimed-free _ (λ h. cc) (λ h. cc) (λ h. cc),
            v.3,
            v.4,
            (λ h. cc),
          ),
          centres (sym e ∙ m) refl
              (omega (arith, leb→le blend_steps r.mode_step (and_left _ _ on), v.2.blends m))
              (and_right _ _ on),
          k.0,
          k.1,
        ))
        (λ _. (
          d,
          v,
          stays e (λ h. absurd (cc (e, m, h))) (λ h. absurd (cc (ap counts_rounds (sym e ∙ m), h))),
          k.0,
          k.1,
        ))

  pub drive_locomotion_blend-IsDriven :
      (l : Loop F)
      → IsLoop cfg l
      → IsRobotState l.state
      → l.mode ≡ Mode.locomotion_blend
      → l.transport.sent ≡ sent
      → Outcome
          (IsDriven cfg edges polled l sent)
          (Logged sent)
          (drive_locomotion_blend delivered run run_locomotion cfg polled l)
  unfolding drive_locomotion_blend
  drive_locomotion_blend-IsDriven l v vs m e =
      step_locomotion-then delivered run run_locomotion cfg safe safe_locomotion c edges polled true
        l _ v vs (ap runs_locomotion m) e
        λ target q n vq. gave (
          enter_locomotion-IsDriven l _ _
            (record {
              target_size = length-blend_in l.blend_start target l.mode_step v.4.start_size n;
              kp_size = length-blend_in l.blend_kp_start _ l.mode_step v.4.kp_size c.locomotion_p;
              kd_size = length-blend_in l.blend_kd_start _ l.mode_step v.4.kd_size c.locomotion_d;
            })
            (
              vq.0,
              vq.1,
              IsTimed-free _ v.2.moves (λ h. let b = v.2.blends h in ground arith) (λ h. cc),
              vq.3,
              vq.4,
              vq.5,
            )
            refl m (refl, e))

  locomotion_at :
      (stopping : Bool) (l : Loop F)
      → (stopping ≡ true
          → (edges.b_rise
              || (cfg.vr_client
                  && (polled.vr_input.toggle_mode || polled.vr_input.activate_or_default)))
            ≡ true)
      → IsLoop cfg l
      → IsRobotState l.state
      → l.mode ≡ Mode.locomotion
      → l.transport.sent ≡ sent
      → Outcome (IsDriven cfg edges polled l sent) (Logged sent) (
          after
            (step_locomotion delivered run run_locomotion cfg stopping polled
              (if stopping then stop_locomotion delivered run run_locomotion cfg l else l))
            (λ target. give (locomotion_drive delivered run run_locomotion cfg target)))
  locomotion_at true l why v vs m e =
      step_locomotion-then delivered run run_locomotion cfg safe safe_locomotion c edges polled true
        (stop_locomotion delivered run run_locomotion cfg l) _
        (stop_locomotion-IsLoop delivered run run_locomotion cfg safe safe_locomotion c edges polled
          l v m)
        vs refl e
        λ target q n vq. gave (
          record { target_size = n; kp_size = c.locomotion_p; kd_size = c.locomotion_d },
          vq,
          brakes m refl (why refl),
          refl,
          e,
        )
  locomotion_at false l why v vs m e =
      step_locomotion-then delivered run run_locomotion cfg safe safe_locomotion c edges polled
        false l _ v vs (ap runs_locomotion m) e
        λ target q n vq. gave (
          record { target_size = n; kp_size = c.locomotion_p; kd_size = c.locomotion_d },
          vq,
          stays refl (λ h. absurd (cc (m, h))) (λ h. absurd (cc (ap counts_rounds m, h))),
          refl,
          e,
        )

  pub drive_locomotion-IsDriven :
      (l : Loop F)
      → IsLoop cfg l
      → IsRobotState l.state
      → l.mode ≡ Mode.locomotion
      → l.transport.sent ≡ sent
      → Outcome
          (IsDriven cfg edges polled l sent)
          (Logged sent)
          (drive_locomotion delivered run run_locomotion cfg edges polled l)
  unfolding drive_locomotion wants_whole_body
  drive_locomotion-IsDriven l v vs m e = locomotion_at _ l (λ h. h) v vs m e
