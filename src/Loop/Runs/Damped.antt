-- ===== src/Loop/Runs/Damped.antt =====
-- Every exit of the policy process sends the damping command (g1_sim2real/src/g1_npz_policy.cpp, `main`).
use grit_deploy_onboard_g.Prelude.{
  ℕ, ◌≤◌, ◌≡◌, ◌⊎◌, inr, refl, arith, Bool, true, ◌||◌, List, [], ◌∷◌, All, if-split, Result, ok,
}
use grit_deploy_onboard_g.Floats.{Floats}
use grit_deploy_onboard_g.Geometry.Totality.{Always}
use grit_deploy_onboard_g.Transport.{Command, make_command, send}
use grit_deploy_onboard_g.Loop.{LoopConfig, Inputs, Loop}
use grit_deploy_onboard_g.Loop.Polling.{Edges, Polled}
use grit_deploy_onboard_g.Loop.Modes.{Turn, goes_on, leaves, zeros, damping, transmit, send_damping}
use grit_deploy_onboard_g.Stateful.Outcome.{Outcome, gave, threw}
use grit_deploy_onboard_g.Loop.Invariant.{IsLoop, IsLoopConfig, IsInputs, Logged}
use grit_deploy_onboard_g.Loop.Iterate.{received, iterate-IsTurn}
use grit_deploy_onboard_g.Loop.Turns.{IsRound, IsTurn}
use grit_deploy_onboard_g.Loop.Runs.{
  Phase, running, exited, close_normally, close_after_error, finish, after_round, run_loop,
}

module _ {ℓ} {F : Type ℓ} ⦃fl : Floats F⦄ where
  -- No torque, and 8 for every damping gain.
  pub record IsDamping (c : Command F) : Type ℓ where
    pub q_des : c.q_des ≡ zeros
    pub qd_des : c.qd_des ≡ zeros
    pub kp : c.kp ≡ zeros
    pub kd : c.kd ≡ damping
    pub enable : c.enable ≡ 0

  -- The last command is the damping command.
  abbrev pub EndsDamped : Loop F → Type ℓ
  EndsDamped r =
      (c : Command F) × (older : List (Command F)) × (r.transport.sent ≡ c ∷ older) × IsDamping c

  -- The process is in the loop with `P`, or has exited with code 0 or 1 behind the damping command.
  pub data Reaches {κ} (P : Loop F → Type κ) : Loop F × Phase → Type (ℓ ⊔ κ) where
    in_loop : {r : Loop F} → P r → Reaches P (r, running)
    at_end : {r : Loop F} {code : ℕ} → code ≤ 1 → EndsDamped r → Reaches P (r, exited code)

module _ {ℓ κ} {F : Type ℓ} ⦃fl : Floats F⦄ (delivered : Command F → Bool)
    (run : List F → List F → Result (List F)) (run_locomotion : List F → Result (List F))
    (cfg : LoopConfig F) (all : (c : Command F) → delivered c ≡ true) (P : Loop F → Type κ) where
  send_damping-eq :
      (l : Loop F)
      → (r : Loop F) × (send_damping delivered run run_locomotion cfg l ≡ (r, ok tt)) × EndsDamped r
  unfolding send_damping transmit send
  send_damping-eq l =
      let c = make_command zeros zeros zeros damping 0 l.state.receive_time_ns l.transport in
      rw (all c) (
        _,
        refl,
        (
          c,
          l.transport.sent,
          refl,
          record { q_des = refl; qd_des = refl; kp = refl; kd = refl; enable = refl },
        ),
      )

  close_normally-Reaches :
      (l : Loop F) → Reaches P (close_normally (send_damping delivered run run_locomotion cfg l))
  unfolding close_normally
  close_normally-Reaches l = let (r, e, d) = send_damping-eq l in rw e (at_end (omega arith) d)

  close_after_error-Reaches :
      (l : Loop F) → Reaches P (close_after_error (send_damping delivered run run_locomotion cfg l))
  unfolding close_after_error
  close_after_error-Reaches l = let (r, e, d) = send_damping-eq l in rw e (at_end (omega arith) d)

  pub finish-Reaches :
      (stop : Bool) (l : Loop F)
      → (l.damping_requested ≡ true) ⊎ (stop ≡ true)
      → Reaches P (finish delivered run run_locomotion cfg stop l)
  unfolding finish
  finish-Reaches stop l why =
      if-split (Reaches P) (l.damping_requested || stop) (λ _. close_normally-Reaches l)
        (λ off. absurd (ground arith))

  -- A round and what follows it.
  pub after_round-Reaches :
      {sent : List (Command F)} {edges : Edges} {polled : Polled F} (l : Loop F)
      {outcome : Loop F × Result Turn} (stop : Bool) {rest : Loop F → Loop F × Phase}
      → Outcome (IsTurn cfg edges polled l sent stop) (Logged sent) outcome
      → ((r : Loop F) → IsRound cfg edges polled l sent r → Reaches P (rest r))
      → Reaches P (after_round delivered run run_locomotion cfg outcome stop rest)
  unfolding after_round
  after_round-Reaches l stop (gave {s = r} {a = goes_on} h) rest = rest r h
  after_round-Reaches l stop (gave {s = r} {a = leaves} h) rest = finish-Reaches stop r h.1
  after_round-Reaches l stop (threw {s = r} h) rest = close_after_error-Reaches r

module _ {ℓ} {F : Type ℓ} ⦃fl : Floats F⦄ (delivered : Command F → Bool)
    (run : List F → List F → Result (List F)) (run_locomotion : List F → Result (List F))
    (cfg : LoopConfig F) (safe : (r h : List F) → Always (run r h))
    (safe_locomotion : (o : List F) → Always (run_locomotion o)) (c : IsLoopConfig cfg)
    (all : (c : Command F) → delivered c ≡ true) where
  -- Whatever the inputs of its rounds are, the process is still in the loop with the invariant, or it has
  -- exited with code 0 or 1 and the last command that it sent is the damping command. It has met no
  -- access out of bounds. Every datagram is assumed to be taken by the socket, and the inputs as in a
  -- single round.
  pub run_loop-Reaches :
      (inputs : List (Inputs F)) (l : Loop F)
      → All IsInputs inputs
      → IsLoop cfg l
      → Reaches (IsLoop cfg) (run_loop delivered run run_locomotion cfg inputs l)
  unfolding run_loop
  run_loop-Reaches [] l vi v = in_loop v
  run_loop-Reaches (i ∷ inputs) l vi v =
      if-split (Reaches (IsLoop cfg)) i.stop_signal
        (λ _. finish-Reaches delivered run run_locomotion cfg all (IsLoop cfg) true l (inr refl))
        λ _.
          after_round-Reaches delivered run run_locomotion cfg all (IsLoop cfg) (received i l)
            i.stop_after_receive
            (iterate-IsTurn delivered run run_locomotion cfg safe safe_locomotion c i l vi.0 v)
            λ r h. run_loop-Reaches inputs r vi.1 h.0
