-- ===== src/Loop/Turns.antt =====
-- How a round of the control loop ends (g1_sim2real/src/g1_npz_policy.cpp, `main`).
use grit_deploy_onboard_g.Prelude.{ℕ, ◌≡◌, ◌⊎◌, ◌∙◌, Bool, true, List}
use grit_deploy_onboard_g.Floats.{Floats}
use grit_deploy_onboard_g.Grit.{RobotState, GritPolicy}
use mathlib.Core.Path.{subst}
use grit_deploy_onboard_g.Transport.{Command}
use grit_deploy_onboard_g.Loop.{WholeBodyMode, Mode, LoopConfig, Loop}
use grit_deploy_onboard_g.Loop.Polling.{Edges, Polled}
use grit_deploy_onboard_g.Loop.Modes.{Turn, goes_on, leaves}
use grit_deploy_onboard_g.Loop.Invariant.{IsLoop}
use grit_deploy_onboard_g.Loop.Rounds.{Sends, Moves, Transition}
use grit_deploy_onboard_g.Loop.Quiet.{SameSteps}

-- What a round leaves that goes on.
abbrev pub IsRound {ℓ} :
    {F : Type ℓ} ⦃fl : Floats F⦄
    → LoopConfig F
    → Edges
    → Polled F
    → Loop F
    → List (Command F)
    → Loop F
    → Type ℓ
IsRound cfg edges polled l sent r =
    IsLoop cfg r
    × (r.state ≡ l.state)
    × Sends l.mode l.state.receive_time_ns sent r
    × Transition cfg edges polled l r

-- How a round ends: it has sent a command and goes on, or it has sent none and leaves the loop, because
-- damping was requested or the stop flag is up.
abbrev pub IsTurn {ℓ} :
    {F : Type ℓ} ⦃fl : Floats F⦄
    → LoopConfig F
    → Edges
    → Polled F
    → Loop F
    → List (Command F)
    → Bool
    → Turn
    → Loop F
    → Type ℓ
IsTurn cfg edges polled l sent stop goes_on r = IsRound cfg edges polled l sent r
IsTurn cfg edges polled l sent stop leaves r =
    (r.transport.sent ≡ sent) × ((r.damping_requested ≡ true) ⊎ (stop ≡ true))

Moves-rebase {ℓ} :
    {F : Type ℓ} ⦃fl : Floats F⦄ {cfg : LoopConfig F} {edges : Edges} {polled : Polled F}
    {m m' next : Mode} {w w' : WholeBodyMode} {a a' b b' move step : ℕ} {state : RobotState F}
    {grit : GritPolicy F}
    → m ≡ m'
    → w ≡ w'
    → a ≡ a'
    → b ≡ b'
    → Moves cfg edges polled m w a b next state move step grit
    → Moves cfg edges polled m' w' a' b' next state move step grit
Moves-rebase {cfg = cfg} {edges = edges} {polled = polled} {m' = m'} {next = next} {w = w} {w' = w'}
      {a = a} {a' = a'} {b = b} {move = move} {step = step} {state = state} {grit = grit} em ew ea
      eb h =
    subst (λ (x : ℕ). Moves cfg edges polled m' w' a' x next state move step grit) eb
      (subst (λ (x : ℕ). Moves cfg edges polled m' w' x b next state move step grit) ea
        (subst (λ (x : WholeBodyMode). Moves cfg edges polled m' x a b next state move step grit) ew
          (subst (λ (x : Mode). Moves cfg edges polled x w a b next state move step grit) em h)))

-- The same turn, told from an earlier point of the round.
pub rebase {ℓ} :
    {F : Type ℓ} ⦃fl : Floats F⦄ (cfg : LoopConfig F) (edges : Edges) (polled : Polled F)
    (sent : List (Command F)) (stop : Bool) (l k : Loop F) (turn : Turn) (r : Loop F)
    → (k.mode ≡ l.mode) × (k.state ≡ l.state)
    → SameSteps l k
    → IsTurn cfg edges polled k sent stop turn r
    → IsTurn cfg edges polled l sent stop turn r
rebase {F = F} cfg edges polled sent stop l k goes_on r e s h = (
  h.0,
  h.1 ∙ e.1,
  subst (λ (m : Mode). Sends m l.state.receive_time_ns sent r) e.0
      (subst (λ (x : RobotState F). Sends k.mode x.receive_time_ns sent r) e.1 h.2),
  Moves-rebase e.0 s.0 s.1 s.2 h.3,
)
rebase cfg edges polled sent stop l k leaves r e s h = h
