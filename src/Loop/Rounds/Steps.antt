-- ===== src/Loop/Rounds/Steps.antt =====
-- The calls of the two policies in a round (g1_sim2real/src/g1_npz_policy.cpp, `main`).
use grit_deploy_onboard_g.Prelude.{
  ℕ, ◌≤◌, ◌<◌, ◌≡◌, refl, ap, arith, Bool, true, false, List, length, inl, Result, ok,
}
use grit_deploy_onboard_g.Floats.{Floats}
use grit_deploy_onboard_g.Geometry.Totality.{Always}
use grit_deploy_onboard_g.Segment.{dof}
use grit_deploy_onboard_g.Grit.{GritPolicy}
use grit_deploy_onboard_g.Grit.Invariant.{IsCalmer, IsRobotState}
use grit_deploy_onboard_g.Grit.Control.{step-IsCalmer}
use grit_deploy_onboard_g.Grit.Playback.{step as step_grit}
use grit_deploy_onboard_g.Locomotion.{LocomotionPolicy, step as step_loco}
use grit_deploy_onboard_g.Locomotion.Control.{reset-IsReady, step-IsReady}
use grit_deploy_onboard_g.Transport.{Command}
use grit_deploy_onboard_g.Loop.{
  WholeBodyMode, Mode, LoopConfig, Loop, move_steps, blend_steps, locomotion_stop_steps,
}
use grit_deploy_onboard_g.Stateful.{after}
use grit_deploy_onboard_g.Loop.Monad.{LoopM}
use grit_deploy_onboard_g.Loop.Polling.{Edges, Polled, is_whole_body}
use grit_deploy_onboard_g.Loop.Modes.{Drive, take_locomotion, step_locomotion, step_whole_body}
use grit_deploy_onboard_g.Stateful.Outcome.{Outcome, gave, Outcome-call, Outcome-assoc}
use grit_deploy_onboard_g.Loop.Invariant.{
  runs_whole_body, runs_locomotion, IsLoop, IsLoopConfig, IsRunning, IsTracking, IsTimed,
  IsSelecting, IsBlending, Logged,
}
use grit_deploy_onboard_g.Loop.Session.Triggers.{IsTracking-move}
use grit_deploy_onboard_g.Loop.Rounds.{IsDrive, Transition}

-- A drive and the variables with which it is sent.
abbrev pub IsDriven {ℓ} :
    {F : Type ℓ} ⦃fl : Floats F⦄
    → LoopConfig F
    → Edges
    → Polled F
    → Loop F
    → List (Command F)
    → Drive F
    → Loop F
    → Type ℓ
IsDriven cfg edges polled l sent d r =
    IsDrive d
    × IsLoop cfg r
    × Transition cfg edges polled l r
    × (r.state ≡ l.state)
    × (r.transport.sent ≡ sent)

-- A change of mode that is no timed mode's.
pub IsTimed-free :
    (mode : Mode) {move_step mode_step : ℕ}
    → (mode ≡ Mode.move_to_default → move_step < move_steps)
    → (mode ≡ Mode.locomotion_blend → mode_step ≤ blend_steps)
    → (mode ≡ Mode.locomotion_stopping → mode_step < locomotion_stop_steps)
    → IsTimed mode move_step mode_step
IsTimed-free mode m b s = record { moves = m; blends = b; stops = s }

-- Outside the whole-body mode nothing streams or is asked for.
pub not_asked :
    {vr_client : Bool} {mode : Mode} {w : WholeBodyMode} {streaming playing : Bool} (pending : Bool)
    → IsTracking vr_client mode w streaming playing pending
    → is_whole_body mode ≡ false
    → pending ≡ false
not_asked true t off = let e = ap is_whole_body (t.asks refl).0 in absurd (cc (e, off))
not_asked false t off = refl

module _ {ℓ} {F : Type ℓ} ⦃fl : Floats F⦄ (delivered : Command F → Bool)
    (run : List F → List F → Result (List F)) (run_locomotion : List F → Result (List F))
    (cfg : LoopConfig F) (safe : (r h : List F) → Always (run r h))
    (safe_locomotion : (o : List F) → Always (run_locomotion o)) (c : IsLoopConfig cfg)
    (edges : Edges) (polled : Polled F) {sent : List (Command F)} where
  pub step_locomotion-then {κ μ} :
      {B : Type κ} {R : B → Loop F → Type μ} (force : Bool) (l : Loop F) (rest : List F → LoopM F B)
      → IsLoop cfg l
      → IsRobotState l.state
      → runs_locomotion l.mode ≡ true
      → l.transport.sent ≡ sent
      → ((target : List F) (q : LocomotionPolicy F)
          → length target ≡ dof
          → IsLoop cfg (record l { loco = q })
          → Outcome R (Logged sent) (rest target (record l { loco = q })))
      → Outcome R
          (Logged sent)
          (after (step_locomotion delivered run run_locomotion cfg force polled l) rest)
  unfolding step_locomotion
  step_locomotion-then force l rest v vs on e h =
      Outcome-assoc (l, step_loco run_locomotion l.state force polled.pico_sticks l.loco)
        (λ stepped _. (record l { loco = stepped.0 }, ok stepped.1)) rest
        (Outcome-call _
          (step-IsReady run_locomotion safe_locomotion l.state force polled.pico_sticks l.loco vs
            (v.0.ready on))
          (inl e)
          λ stepped t. h stepped.1 stepped.0 t.1 (
            record {
              configured = v.0.configured;
              whole_body = v.0.whole_body;
              parts = t.0.parts;
              ready = λ _. t.0;
            },
            v.1,
            v.2,
            v.3,
            v.4,
            v.5,
          ))

  pub step_whole_body-then {κ μ} :
      {B : Type κ} {R : B → Loop F → Type μ} (l : Loop F) (rest : List F → LoopM F B)
      → IsLoop cfg l
      → IsRobotState l.state
      → runs_whole_body l.mode ≡ true
      → l.transport.sent ≡ sent
      → ((target : List F) (q : GritPolicy F)
          → length target ≡ dof
          → IsLoop cfg (record l { grit = q })
          → IsCalmer q l.grit
          → Outcome R (Logged sent) (rest target (record l { grit = q })))
      → Outcome R (Logged sent) (after (step_whole_body delivered run run_locomotion cfg l) rest)
  unfolding step_whole_body
  step_whole_body-then l rest v vs on e h =
      Outcome-assoc (l, step_grit run l.state l.grit)
        (λ stepped _. (record l { grit = stepped.0 }, ok stepped.1)) rest
        (Outcome-call _ (step-IsCalmer run safe l.state l.grit vs (v.0.whole_body on)) (inl e)
          λ stepped t.
            h stepped.1 stepped.0 t.1
              (
                record {
                  configured = t.0.configured;
                  whole_body = λ _. t.0;
                  parts = v.0.parts;
                  ready = v.0.ready;
                },
                record {
                  streams = λ on. v.1.streams (t.2.streams on);
                  asks = v.1.asks;
                  plays = λ on. v.1.plays (t.2.plays on);
                  tracks = v.1.tracks;
                },
                v.2,
                v.3,
                v.4,
                v.5,
              )
              t.2)

  -- The locomotion policy is reset, and its blend begins at `target`.
  pub take_locomotion-IsLoop :
      (target kp kd : List F) (l : Loop F)
      → IsRunning l.mode l.grit l.loco
      → IsTracking cfg.vr_client l.mode l.whole_body_mode l.grit.vr_streaming l.grit.playing_motion
          l.vr_start_pending
      → IsSelecting cfg.motion_count l.selected_motion_index l.pending_motion_index l.loaded_motion
      → IsRobotState l.state
      → is_whole_body l.mode ≡ false
      → IsBlending target kp kd
      → Logged sent l
      → Outcome
          (λ _ r.
            IsLoop cfg r
            × (r.mode ≡ Mode.locomotion_blend)
            × (r.state ≡ l.state)
            × (r.transport ≡ l.transport)
            × (r.grit ≡ l.grit))
          (Logged sent)
          (take_locomotion delivered run run_locomotion cfg target kp kd l)
  unfolding take_locomotion
  take_locomotion-IsLoop target kp kd l v t s vs off b e =
      Outcome-call _ (reset-IsReady l.state l.loco vs v.parts) e λ q h. gave (
        (
          record {
            configured = v.configured;
            whole_body = λ (on : false ≡ true). absurd (cc);
            parts = h.0.parts;
            ready = λ _. h.0;
          },
          IsTracking-move t off t.tracks,
          IsTimed-free _ (λ h. cc) (λ h. omega arith) (λ h. cc),
          s,
          b,
          (λ h. cc),
        ),
        refl,
        refl,
        refl,
        refl,
      )
