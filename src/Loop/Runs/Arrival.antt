-- ===== src/Loop/Runs/Arrival.antt =====
-- The move to the default pose ends (g1_sim2real/src/g1_npz_policy.cpp, `main`).
use grit_deploy_onboard_g.Prelude.{
  ℕ, ◌+◌, ◌≤◌, ◌<◌, ◌≡◌, inr, refl, ◌∙◌, arith, Bool, true, List, [], ◌∷◌, All, length, if-split,
  Result,
}
use grit_deploy_onboard_g.Floats.{Floats}
use grit_deploy_onboard_g.Geometry.Totality.{Always}
use grit_deploy_onboard_g.Transport.{Command}
use grit_deploy_onboard_g.Loop.{Mode, LoopConfig, Inputs, Loop, move_steps}
use grit_deploy_onboard_g.Loop.Polling.{Edges, Polled}
use grit_deploy_onboard_g.Loop.Rounds.{
  Transition, stays, starts, takes_over, centres, brakes, hands_over, settles, switches, toggles,
  stands, returns,
}
use grit_deploy_onboard_g.Loop.Invariant.{IsLoop, IsLoopConfig, IsInputs}
use grit_deploy_onboard_g.Loop.Iterate.{received, iterate-IsTurn}
use grit_deploy_onboard_g.Loop.Runs.{run_loop}
use grit_deploy_onboard_g.Loop.Runs.Damped.{Reaches, in_loop, finish-Reaches, after_round-Reaches}

-- Where `n` steps of the move have led: on the way, or past the hundredth into the blend.
pub record Moved {ℓ} {F : Type ℓ} (n : ℕ) (l : Loop F) : Type 0 where
  pub still : n < move_steps → (l.mode ≡ Mode.move_to_default) × (l.move_step ≡ n)
  pub through : n ≡ move_steps → l.mode ≡ Mode.locomotion_blend

-- A step of the move: one more, or the last.
data Step {ℓ} {F : Type ℓ} (l r : Loop F) : Type 0 where
  more : r.mode ≡ Mode.move_to_default → r.move_step ≡ l.move_step + 1 → Step l r
  last : r.mode ≡ Mode.locomotion_blend → l.move_step + 1 ≡ move_steps → Step l r

module _ {ℓ} {F : Type ℓ} ⦃fl : Floats F⦄ {cfg : LoopConfig F} {edges : Edges}
    {polled : Polled F} where
  move_step :
      (l r : Loop F) → l.mode ≡ Mode.move_to_default → Transition cfg edges polled l r → Step l r
  move_step l r m (stays e counts _) = more (e ∙ m) (counts m)
  move_step l r m (starts e _ _) = absurd (cc (m, e))
  move_step l r m (takes_over _ n full) = last n full
  move_step l r m (centres e _ _ _) = absurd (cc (m, e))
  move_step l r m (brakes e _ _) = absurd (cc (m, e))
  move_step l r m (hands_over e _ _) = absurd (cc (m, e))
  move_step l r m (settles e _ _) = absurd (cc (m, e))
  move_step l r m (switches e _ _ _ _) = absurd (cc (m, e))
  move_step l r m (toggles e _ _) = absurd (cc (m, e))
  move_step l r m (stands e _ _) = absurd (cc (m, e))
  move_step l r m (returns e _ _) = absurd (cc (m, e))

module _ {ℓ} {F : Type ℓ} ⦃fl : Floats F⦄ (delivered : Command F → Bool)
    (run : List F → List F → Result (List F)) (run_locomotion : List F → Result (List F))
    (cfg : LoopConfig F) (safe : (r h : List F) → Always (run r h))
    (safe_locomotion : (o : List F) → Always (run_locomotion o)) (c : IsLoopConfig cfg)
    (all : (c : Command F) → delivered c ≡ true) where
  arrives :
      (inputs : List (Inputs F)) (r : Loop F) (n : ℕ)
      → n ≡ move_steps
      → (r.mode ≡ Mode.locomotion_blend) × (length inputs ≡ 0)
      → Reaches (Moved n) (run_loop delivered run run_locomotion cfg inputs r)
  unfolding run_loop
  arrives [] r n full e = in_loop (record { still = λ h. absurd (omega arith); through = λ _. e.0 })
  arrives (i ∷ inputs) r n full e = absurd (omega (arith, e.1))

  next_step :
      (inputs : List (Inputs F)) (l r : Loop F) (n : ℕ)
      → n ≤ move_steps
      → l.move_step + 1 + length inputs ≡ n
      → (r.mode ≡ Mode.move_to_default
          → r.move_step ≡ l.move_step + 1
          → Reaches (Moved n) (run_loop delivered run run_locomotion cfg inputs r))
      → Step l r
      → Reaches (Moved n) (run_loop delivered run run_locomotion cfg inputs r)
  next_step inputs l r n le e continue (more m s) = continue m s
  next_step inputs l r n le e continue (last m full) =
      arrives inputs r n (omega arith) (m, omega arith)

  -- The move to the default pose takes exactly a hundred rounds. From `move_step` on, after inputs for
  -- no more than the rest of the hundred, the process has exited behind the damping command; or it is
  -- still in the move, with one more step for each round, where they were fewer; or it is in the blend
  -- into locomotion, where they were all.
  pub move_to_default-arrives :
      (inputs : List (Inputs F)) (l : Loop F) (n : ℕ)
      → All IsInputs inputs
      → IsLoop cfg l
      → l.mode ≡ Mode.move_to_default
      → l.move_step + length inputs ≡ n
      → n ≤ move_steps
      → Reaches (Moved n) (run_loop delivered run run_locomotion cfg inputs l)
  unfolding run_loop
  move_to_default-arrives [] l n vi v m e le =
      let b = v.2.moves m in
      in_loop (record { still = λ h. (m, omega arith); through = λ h. absurd (omega arith) })
  move_to_default-arrives (i ∷ inputs) l n vi v m e le =
      if-split (Reaches (Moved n)) i.stop_signal
        (λ _. finish-Reaches delivered run run_locomotion cfg all _ true l (inr refl))
        λ _.
          after_round-Reaches delivered run run_locomotion cfg all _ (received i l)
            i.stop_after_receive
            (iterate-IsTurn delivered run run_locomotion cfg safe safe_locomotion c i l vi.0 v)
            λ r h.
              next_step inputs (received i l) r n le (omega (arith, e))
                (λ m' s. move_to_default-arrives inputs r n vi.1 h.0 m' (omega (arith, s, e)) le)
                (move_step (received i l) r m h.3)
