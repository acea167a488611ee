-- ===== src/Loop/Runs/Start.antt =====
-- The control loop begins with its invariant (g1_sim2real/src/g1_npz_policy.cpp, `main`).
use grit_deploy_onboard_g.Prelude.{◌≡◌, refl, arith, true, false, length-replicate, if-split}
use grit_deploy_onboard_g.Floats.{Floats, float}
use grit_deploy_onboard_g.Segment.{dof}
use grit_deploy_onboard_g.Grit.{RobotState, GritPolicy}
use grit_deploy_onboard_g.Grit.Invariant.{IsConfigured}
use grit_deploy_onboard_g.Locomotion.{LocomotionPolicy}
use grit_deploy_onboard_g.Locomotion.Control.{IsLocomotion}
use grit_deploy_onboard_g.Transport.{Transport}
use grit_deploy_onboard_g.Loop.{WholeBodyMode, vr_tracking, LoopConfig}
use grit_deploy_onboard_g.Loop.Invariant.{IsLoop, IsLoopConfig}
use grit_deploy_onboard_g.Loop.Session.Triggers.{IsTracking-still}
use grit_deploy_onboard_g.Loop.Runs.{start_loop}

module _ {ℓ} {F : Type ℓ} ⦃fl : Floats F⦄ where
  pub start_loop-IsLoop :
      (cfg : LoopConfig F) (state : RobotState F) (grit : GritPolicy F) (loco : LocomotionPolicy F)
      (transport : Transport F)
      → IsLoopConfig cfg
      → IsConfigured grit
      → (grit.vr_streaming ≡ false) × (grit.playing_motion ≡ false)
      → IsLocomotion loco
      → IsLoop cfg (start_loop cfg state grit loco transport)
  start_loop-IsLoop cfg state grit loco transport c vg off vl = (
    record {
      configured = vg;
      whole_body = λ (h : false ≡ true). absurd (cc);
      parts = vl;
      ready = λ (h : false ≡ true). absurd (cc);
    },
    IsTracking-still (off.0, off.1, refl)
        (if-split (λ (w : WholeBodyMode). w ≡ vr_tracking → cfg.vr_client ≡ true) cfg.vr_client
          (λ on _. on) (λ _ h. cc)),
    record { moves = λ h. cc; blends = λ h. cc; stops = λ h. cc },
    record { selection = ground arith; loading = λ index h. cc; shaped = λ motion h. cc },
    record {
      start_size = length-replicate dof (float {F = F} 0);
      kp_size = c.locomotion_p;
      kd_size = c.locomotion_d;
    },
    (λ h. cc),
  )
