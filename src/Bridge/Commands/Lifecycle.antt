-- ===== src/Bridge/Commands/Lifecycle.antt =====
-- The bridge's life on the command path: g1_sim2real/src/g1_udp_bridge.cpp, `activate_low_level`,
-- `release_motion_service`, `publish_shutdown_damping_burst`, `close`. The threads interleave as the
-- steps of a relation, each under the lock that it takes.
pub mod Order
use Prim.Native.String.{String, len, ◌++◌}
use grit_deploy_onboard_g.Prelude.{
  ℕ, zero, suc, ◌≡◌, Bool, true, false, not, ◌&&◌, List, [], ◌∷◌, ◌++◌ as ◌++ₗ◌, max, replicate,
  ◌==◌, if◌then◌else◌, Result, ok, throw, require, ◌>>=◌, ◌>>◌,
}
use grit_deploy_onboard_g.Floats.{Floats}
use grit_deploy_onboard_g.Yaml.{Yaml}
use grit_deploy_onboard_g.Wire.{LatestPacket}
use grit_deploy_onboard_g.Bridge.Commands.{LowCmd, CommandConfig, damping_command}
use grit_deploy_onboard_g.Bridge.Commands.Handler.{CommandState, on_udp_command, watchdog_round}

-- `CheckMode` of the SDK's motion switcher: its return code and the active service's name.
pub record ModeAnswer : Type 0 where
  pub ret : ℕ
  pub name : String

-- The calls of `CheckMode` give `answer 0`, `answer 1`, …; `n` attempts are left.
-- The message of a failed check leaves out the return code.
unfoldable pub release_attempts : Bool → (ℕ → ModeAnswer) → ℕ → ℕ → Result (Unit {0})
release_attempts required answer attempt zero =
    if ((answer attempt).ret == 0) && (len (answer attempt).name == 0)
    then ok tt
    else if required
    then throw "Motion control service is still active after release attempts"
    else ok tt
release_attempts required answer attempt (suc n) =
    let rest = release_attempts required answer (suc attempt) n in
    if not ((answer attempt).ret == 0)
    then if required then throw "MotionSwitcher CheckMode failed" else ok tt
    else if len (answer attempt).name == 0
    then ok tt
    else rest

unfoldable pub release_motion_service : Bool → Bool → ℕ → (ℕ → ModeAnswer) → Result (Unit {0})
release_motion_service enabled required max_attempts answer =
    if not enabled then ok tt else release_attempts required answer 0 max_attempts

module _ {κ} {F : Type κ} ⦃fl : Floats F⦄ (to_float : F → F) (words : LowCmd F → List ℕ) where
  -- `publish_damping_command`: nothing is written once the publisher is gone.
  unfoldable pub publish_damping : CommandConfig F → CommandState F → CommandState F
  publish_damping cfg s = record s {
    written = s.written ++ₗ (damping_command to_float words cfg s.mode_machine ∷ []);
  }

  -- The handoff: it waits for the first valid command (a stop ends the wait with an exception), has
  -- the motion service released, and writes one damping command before commands pass.
  unfoldable pub activate_low_level :
      CommandConfig F → Result (Unit {0}) → CommandState F → Result (CommandState F)
  activate_low_level cfg released s = do
    require s.have_initial_valid_command "Interrupted while waiting for the initial policy command"
    released
    ok (record (publish_damping cfg s) { low_level_active = true; command_timeout_active = false })

  -- `publish_shutdown_damping_burst`: `n` more damping commands.
  unfoldable pub damping_burst : ℕ → CommandConfig F → CommandState F → CommandState F
  damping_burst zero cfg s = s
  damping_burst (suc n) cfg s = damping_burst n cfg (publish_damping cfg s)

  -- `close`; `planned` is the rounded product of duration and rate.
  unfoldable pub close_bridge : ℕ → CommandConfig F → CommandState F → CommandState F
  close_bridge planned cfg s =
      if s.closed
      then s
      else if s.low_level_active
      then record (damping_burst (max 1 planned) cfg s) { closed = true; low_level_active = false }
      else record s { closed = true }

  module _ {ℓ} {N : Type ℓ} (yaml : Yaml N) (of_f4 of_f8 : List ℕ → F) where
    -- The threads' steps. The receiver and the handoff end before `close` does its work.
    pub data Step (cfg : CommandConfig F) : CommandState F → CommandState F → Type (κ ⊔ ℓ) where
      command :
          {s t : CommandState F}
          → (packet : LatestPacket N) → (now : ℕ) → s.closed ≡ false
          → on_udp_command ⦃yaml = yaml⦄ of_f4 of_f8 to_float words cfg packet now s ≡ ok t
          → Step cfg s t
      watch : {s : CommandState F} → (timeout now : ℕ) → Step cfg s (watchdog_round timeout now s)
      activate :
          {s t : CommandState F}
          → (released : Result (Unit {0})) → s.closed ≡ false
          → activate_low_level cfg released s ≡ ok t
          → Step cfg s t
      close : {s : CommandState F} → (planned : ℕ) → Step cfg s (close_bridge planned cfg s)
      stop : {s : CommandState F} → Step cfg s (record s { stop_requested = true })

    pub data Steps (cfg : CommandConfig F) : CommandState F → CommandState F → Type (κ ⊔ ℓ) where
      done : {s : CommandState F} → Steps cfg s s
      next : {s t u : CommandState F} → Steps cfg s t → Step cfg t u → Steps cfg s u
