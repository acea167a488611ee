-- ===== src/Loop/Rounds.antt =====
-- The modes of the control loop (g1_sim2real/src/g1_npz_policy.cpp, `main`): each keeps the invariant,
-- gives 29 targets and gains, and leads to the modes that it may lead to.
pub mod Steps
pub mod Walking
pub mod Entering
pub mod Standing
use grit_deploy_onboard_g.Prelude.{
  ℕ, ◌+◌, ◌≤◌, ◌≡◌, refl, sym, ap, ◌∙◌, arith, Bool, true, false, not, ◌&&◌, ◌||◌, List, ◌∷◌,
  length, min, ltb, inl, inr, if-split, if◌then◌else◌, Result,
}
use grit_deploy_onboard_g.Floats.{Floats}
use grit_deploy_onboard_g.Segment.{dof, zip_with}
use grit_deploy_onboard_g.Segment.Shape.{length-zip_with}
use grit_deploy_onboard_g.Grit.{RobotState, GritPolicy, is_standing}
use grit_deploy_onboard_g.Locomotion.{sticks_neutral}
use grit_deploy_onboard_g.Transport.{Command, Transport, make_command, send}
use grit_deploy_onboard_g.Loop.{
  WholeBodyMode, vr_tracking, Mode, LoopConfig, Loop, move_steps, blend_steps,
  locomotion_stop_steps,
}
use grit_deploy_onboard_g.Stateful.{after, ◌>>=◌, ◌>>◌, give, get, put, throw}
use grit_deploy_onboard_g.Loop.Monad.{LoopM}
use grit_deploy_onboard_g.Loop.Polling.{Edges, Polled}
use grit_deploy_onboard_g.Loop.WholeBody.{is_combined}
use grit_deploy_onboard_g.Loop.Modes.{
  Drive, zeros, transmit, blend_values, blend_in, wants_whole_body,
}
use grit_deploy_onboard_g.Stateful.Outcome.{Outcome, gave, threw}
use grit_deploy_onboard_g.Loop.Invariant.{IsLoop, IsCommand, Logged}

pub record IsDrive {ℓ} {F : Type ℓ} (d : Drive F) : Type 0 where
  pub target_size : length d.target ≡ dof
  pub kp_size : length d.kp ≡ dof
  pub kd_size : length d.kd ≡ dof

-- The modes that count their rounds in `mode_step` until they end.
abbrev pub counts_rounds : Mode → Bool
counts_rounds Mode.zero_torque = false
counts_rounds Mode.move_to_default = false
counts_rounds Mode.locomotion_blend = false
counts_rounds Mode.locomotion = false
counts_rounds Mode.locomotion_stopping = true
counts_rounds Mode.whole_body_blend = true
counts_rounds Mode.whole_body = false
counts_rounds Mode.whole_body_switching = false
counts_rounds Mode.whole_body_stopping = true

-- The changes of mode, each with its condition, from a mode with its counters to a mode with the robot's
-- state, the counter and the whole-body policy that it begins with. A round
-- that stays in a timed mode counts.
pub data Moves {ℓ} {F : Type ℓ} ⦃fl : Floats F⦄ (cfg : LoopConfig F) (edges : Edges)
    (polled : Polled F) (mode : Mode) (whole_body_mode : WholeBodyMode) (move_step mode_step : ℕ)
    (next : Mode) (state : RobotState F) (next_move next_step : ℕ) (grit : GritPolicy F)
    : Type 0 where
  stays :
      next ≡ mode
      → (mode ≡ Mode.move_to_default → next_move ≡ move_step + 1)
      → (counts_rounds mode ≡ true → next_step ≡ mode_step + 1)
      → Moves cfg edges polled mode whole_body_mode move_step mode_step next state next_move
          next_step grit
  starts :
      mode ≡ Mode.zero_torque
      → next ≡ Mode.move_to_default
      → state.start ≡ true
      → Moves cfg edges polled mode whole_body_mode move_step mode_step next state next_move
          next_step grit
  takes_over :
      mode ≡ Mode.move_to_default
      → next ≡ Mode.locomotion_blend
      → move_step + 1 ≡ move_steps
      → Moves cfg edges polled mode whole_body_mode move_step mode_step next state next_move
          next_step grit
  centres :
      mode ≡ Mode.locomotion_blend
      → next ≡ Mode.locomotion
      → next_step ≡ blend_steps
      → sticks_neutral state polled.pico_sticks ≡ true
      → Moves cfg edges polled mode whole_body_mode move_step mode_step next state next_move
          next_step grit
  brakes :
      mode ≡ Mode.locomotion
      → next ≡ Mode.locomotion_stopping
      → (edges.b_rise
          || (cfg.vr_client
              && (polled.vr_input.toggle_mode || polled.vr_input.activate_or_default)))
        ≡ true
      → Moves cfg edges polled mode whole_body_mode move_step mode_step next state next_move
          next_step grit
  hands_over :
      mode ≡ Mode.locomotion_stopping
      → next ≡ Mode.whole_body_blend
      → mode_step + 1 ≡ locomotion_stop_steps
      → Moves cfg edges polled mode whole_body_mode move_step mode_step next state next_move
          next_step grit
  settles :
      mode ≡ Mode.whole_body_blend
      → next ≡ Mode.whole_body
      → grit.transition_steps + 25 ≤ mode_step + 1
      → Moves cfg edges polled mode whole_body_mode move_step mode_step next state next_move
          next_step grit
  switches :
      mode ≡ Mode.whole_body
      → next ≡ Mode.whole_body_switching
      → (edges.b_rise || (cfg.vr_client && polled.vr_input.toggle_mode)) ≡ true
      → whole_body_mode ≡ vr_tracking
      → is_combined cfg ≡ true
      → Moves cfg edges polled mode whole_body_mode move_step mode_step next state next_move
          next_step grit
  toggles :
      mode ≡ Mode.whole_body
      → next ≡ Mode.whole_body_stopping
      → (edges.b_rise || (cfg.vr_client && polled.vr_input.toggle_mode)) ≡ true
      → Moves cfg edges polled mode whole_body_mode move_step mode_step next state next_move
          next_step grit
  stands :
      mode ≡ Mode.whole_body_switching
      → next ≡ Mode.whole_body
      → is_standing grit ≡ true
      → Moves cfg edges polled mode whole_body_mode move_step mode_step next state next_move
          next_step grit
  returns :
      mode ≡ Mode.whole_body_stopping
      → next ≡ Mode.locomotion_blend
      → grit.transition_steps + 25 ≤ mode_step + 1
      → Moves cfg edges polled mode whole_body_mode move_step mode_step next state next_move
          next_step grit

abbrev pub Transition {ℓ} :
    {F : Type ℓ} ⦃fl : Floats F⦄ → LoopConfig F → Edges → Polled F → Loop F → Loop F → Type 0
Transition cfg edges polled l r =
    Moves cfg edges polled l.mode l.whole_body_mode l.move_step l.mode_step r.mode r.state
      r.move_step r.mode_step r.grit

-- The motors are enabled in every mode but the first.
abbrev pub enabled : Mode → ℕ
enabled Mode.zero_torque = 0
enabled Mode.move_to_default = 1
enabled Mode.locomotion_blend = 1
enabled Mode.locomotion = 1
enabled Mode.locomotion_stopping = 1
enabled Mode.whole_body_blend = 1
enabled Mode.whole_body = 1
enabled Mode.whole_body_switching = 1
enabled Mode.whole_body_stopping = 1

-- One command more, which names the time of the state that it answers.
abbrev pub Sends {ℓ} : {F : Type ℓ} → Mode → ℕ → List (Command F) → Loop F → Type ℓ
Sends {F = F} mode time sent r =
    (c : Command F) × (r.transport.sent ≡ c ∷ sent)
    × IsCommand c
    × (c.enable ≡ enabled mode)
    × (c.state_receive_time_ns ≡ time)

module _ {ℓ} {F : Type ℓ} ⦃fl : Floats F⦄ where
  pub length-blended :
      (f : F → F → F) (a b : List F)
      → length a ≡ dof
      → length b ≡ dof
      → length (zip_with f a b) ≡ dof
  length-blended f a b ha hb = omega (arith, length-zip_with f a b)

  pub length-blend_values :
      (start target : List F) (step : ℕ)
      → length start ≡ dof
      → length target ≡ dof
      → length (blend_values start target step) ≡ dof
  unfolding blend_values
  length-blend_values start target step a b = length-blended _ start target a b

  pub length-blend_in :
      (start target : List F) (step : ℕ)
      → length start ≡ dof
      → length target ≡ dof
      → length (blend_in start target step) ≡ dof
  unfolding blend_in
  length-blend_in start target step a b =
      if-split (λ (xs : List F). length xs ≡ dof) (ltb step blend_steps)
        (λ _. length-blend_values start target step a b) (λ _. b)

  -- What follows a command that has been sent; a command that is not sent throws.
  pub transmit-Outcome {κ μ} :
      {B : Type κ} {R : B → Loop F → Type μ} (delivered : Command F → Bool)
      (run : List F → List F → Result (List F)) (run_locomotion : List F → Result (List F))
      (cfg : LoopConfig F) (q kp kd : List F) (enable : ℕ) {sent : List (Command F)} (l : Loop F)
      (rest : Unit {0} → LoopM F B)
      → l.transport.sent ≡ sent
      → ((t : Transport F)
          → t.sent ≡ make_command q zeros kp kd enable l.state.receive_time_ns l.transport ∷ sent
          → Outcome R (Logged sent) (rest tt (record l { transport = t })))
      → Outcome R
          (Logged sent)
          (after (transmit delivered run run_locomotion cfg q kp kd enable l) rest)
  unfolding transmit send
  transmit-Outcome {R = R} delivered run run_locomotion cfg q kp kd enable {sent = sent} l rest e
        h =
      let c = make_command q zeros kp kd enable l.state.receive_time_ns l.transport in
      if-split
        (λ (s : Transport F × Bool). Outcome R (Logged sent) (
          after
            (after (put (record l { transport = s.0 }) l)
              (λ _. if s.1 then give tt else throw "command sendto failed"))
            rest))
        (delivered c) (λ _. h _ (ap (λ xs. c ∷ xs) e)) (λ _. threw (inl e))
