-- ===== src/Bridge/Commands/Lifecycle/Order.antt =====
-- The order of what the bridge writes over its life (g1_udp_bridge.cpp): damping first and last.
use mathlib.Core.Path.{subst}
use grit_deploy_onboard_g.Prelude.{
  ℕ, zero, suc, ◌<◌, ◌≡◌, ◌⊎◌, inl, inr, refl, ap, sym, ◌∙◌, arith, true, false, not, ◌&&◌,
  if-split, List, [], ◌∷◌, ◌++◌, max, Result, ok, >>=-eq-ok, Returns-ok, ok-injective, require,
  ◌>>=◌,
}
use grit_deploy_onboard_g.Floats.{Floats}
use grit_deploy_onboard_g.Yaml.{Yaml}
use grit_deploy_onboard_g.Yaml.Reads.{IsYaml}
use grit_deploy_onboard_g.Wire.{LatestPacket}
use grit_deploy_onboard_g.Bridge.Commands.{LowCmd, CommandConfig, damping_command}
use grit_deploy_onboard_g.Bridge.Commands.Handler.{CommandState, command_timed_out, watchdog_round}
use grit_deploy_onboard_g.Bridge.Commands.Handler.Safety.{
  IsCommandConfig, Handled, ignored, wrote, on_udp_command-Handled,
}
use grit_deploy_onboard_g.Bridge.Commands.Lifecycle.{
  publish_damping, activate_low_level, damping_burst, close_bridge, Step, command, watch, activate,
  close, stop, Steps, done, next,
}

append-not_nil {ℓ} : {A : Type ℓ} (xs : List A) (a : A) → ¬ (xs ++ (a ∷ []) ≡ [])
append-not_nil [] a e = cc
append-not_nil (x ∷ xs) a e = cc

module _ {κ} {F : Type κ} ⦃fl : Floats F⦄ (to_float : F → F) (words : LowCmd F → List ℕ)
    (cfg : CommandConfig F) where
  -- Nothing, or a damping command first (last).
  abbrev pub StartsDamped : List (LowCmd F) → Type κ
  StartsDamped written =
      (written ≡ [])
      ⊎ ((mode : ℕ) × (rest : List (LowCmd F)) × (written
            ≡ damping_command to_float words cfg mode ∷ rest))

  abbrev pub EndsDamped : List (LowCmd F) → Type κ
  EndsDamped written =
      (written ≡ [])
      ⊎ ((mode : ℕ) × (before : List (LowCmd F)) × (written
            ≡ before ++ (damping_command to_float words cfg mode ∷ [])))

  pub record IsOrdered (s : CommandState F) : Type κ where
    pub first : StartsDamped s.written
    pub before_handoff : s.low_level_active ≡ false → s.closed ≡ false → s.written ≡ []
    pub after_handoff : s.low_level_active ≡ true → ¬ (s.written ≡ [])
    pub ended : s.closed ≡ true → s.low_level_active ≡ false
    pub last : s.closed ≡ true → EndsDamped s.written

  StartsDamped-append :
      (written : List (LowCmd F)) (cmd : LowCmd F)
      → StartsDamped written
      → ¬ (written ≡ [])
      → StartsDamped (written ++ (cmd ∷ []))
  StartsDamped-append written cmd (inl e) h = absurd (h e)
  StartsDamped-append written cmd (inr (mode, rest, e)) h =
      inr (mode, rest ++ (cmd ∷ []), ap (λ ws. ws ++ (cmd ∷ [])) e)

  damped_append :
      (written : List (LowCmd F)) (mode : ℕ)
      → StartsDamped written
      → StartsDamped (written ++ (damping_command to_float words cfg mode ∷ []))
  damped_append written mode (inl e) =
      inr (mode, [], ap (λ ws. ws ++ (damping_command to_float words cfg mode ∷ [])) e)
  damped_append written mode (inr (m, rest, e)) = inr (
    m,
    rest ++ (damping_command to_float words cfg mode ∷ []),
    ap (λ ws. ws ++ (damping_command to_float words cfg mode ∷ [])) e,
  )

  damping_burst-damped :
      (n : ℕ) (s : CommandState F)
      → 0 < n
      → StartsDamped s.written
      → StartsDamped (damping_burst to_float words n cfg s).written
        × EndsDamped (damping_burst to_float words n cfg s).written
  unfolding damping_burst publish_damping
  damping_burst-damped zero s pos h = absurd (omega arith)
  damping_burst-damped (suc zero) s pos h =
      (damped_append s.written s.mode_machine h, inr (s.mode_machine, s.written, refl))
  damping_burst-damped (suc (suc n)) s pos h =
      damping_burst-damped (suc n) (publish_damping to_float words cfg s) (omega arith)
        (damped_append s.written s.mode_machine h)

  close_bridge-IsOrdered :
      (planned : ℕ) (s : CommandState F)
      → IsOrdered s
      → IsOrdered (close_bridge to_float words planned cfg s)
  unfolding close_bridge
  close_bridge-IsOrdered planned s v =
      if-split IsOrdered s.closed (λ _. v)
        λ opened.
          if-split IsOrdered s.low_level_active
            (λ on.
              let h = damping_burst-damped (max 1 planned) s (omega arith) v.first in
              record {
                first = h.0;
                before_handoff = λ _ k. cc;
                after_handoff = λ k. cc;
                ended = λ _. refl;
                last = λ _. h.1;
              })
            λ off. record {
              first = v.first;
              before_handoff = λ _ h. cc;
              after_handoff = λ h. cc;
              ended = λ _. off;
              last = λ _. inl (v.before_handoff off opened);
            }

  activate_low_level-IsOrdered :
      (released : Result (Unit {0})) (s t : CommandState F)
      → s.closed ≡ false
      → activate_low_level to_float words cfg released s ≡ ok t
      → IsOrdered s
      → IsOrdered t
  unfolding activate_low_level publish_damping
  activate_low_level-IsOrdered released s t opened e v =
      let t0 : CommandState F = record (publish_damping to_float words cfg s) {
        low_level_active = true;
        command_timeout_active = false;
      } in
      let (_, _, e1) =
        >>=-eq-ok
          (require s.have_initial_valid_command
            "Interrupted while waiting for the initial policy command")
          (λ _. released >>= λ _. ok t0) e in
      let (_, _, e2) = >>=-eq-ok released (λ _. ok t0) e1 in
      subst IsOrdered (ok-injective e2) (record {
        first = damped_append s.written s.mode_machine v.first;
        before_handoff = λ h _. cc;
        after_handoff = λ _. append-not_nil s.written _;
        ended = λ h. cc;
        last = λ h. cc;
      })

  watchdog_round-IsOrdered :
      (timeout now : ℕ) (s : CommandState F)
      → IsOrdered s
      → IsOrdered (watchdog_round timeout now s)
  unfolding watchdog_round
  watchdog_round-IsOrdered timeout now s v =
      if-split IsOrdered
        (s.low_level_active && (command_timed_out timeout now s && not s.command_timeout_active))
        (λ _. record {
          first = v.first;
          before_handoff = v.before_handoff;
          after_handoff = v.after_handoff;
          ended = v.ended;
          last = v.last;
        })
        λ _. v

  Handled-IsOrdered {ℓ} :
      {N : Type ℓ} (packet : LatestPacket N) (now : ℕ) (s t : CommandState F)
      → s.closed ≡ false
      → IsOrdered s
      → Handled to_float words cfg packet now s t
      → IsOrdered t
  Handled-IsOrdered packet now s t opened v (ignored w a c) = record {
    first = subst StartsDamped (sym w) v.first;
    before_handoff = λ h k. w ∙ v.before_handoff (sym a ∙ h) (sym c ∙ k);
    ended = λ k. a ∙ v.ended (sym c ∙ k);
    after_handoff = λ h e. v.after_handoff (sym a ∙ h) (sym w ∙ e);
    last = λ k. cc;
  }
  Handled-IsOrdered packet now s t opened v (wrote x cmd _ _ _ on _ w _ a c) = record {
    first =
        subst StartsDamped (sym w) (StartsDamped-append s.written cmd v.first (v.after_handoff on));
    after_handoff = λ _ e. append-not_nil s.written cmd (sym w ∙ e);
    before_handoff = λ h k. cc;
    ended = λ k. cc;
    last = λ k. cc;
  }

module _ {κ ℓ} {F : Type κ} ⦃fl : Floats F⦄ {N : Type ℓ} (yaml : Yaml N) (law : IsYaml yaml)
    (of_f4 of_f8 : List ℕ → F) (to_float : F → F) (words : LowCmd F → List ℕ) where
  Step-IsOrdered :
      (cfg : CommandConfig F) (s t : CommandState F)
      → IsCommandConfig cfg
      → IsOrdered to_float words cfg s
      → Step to_float words yaml of_f4 of_f8 cfg s t
      → IsOrdered to_float words cfg t
  Step-IsOrdered cfg s t vc v (command packet now opened e) =
      Handled-IsOrdered to_float words cfg packet now s t opened v
        (Returns-ok
          (on_udp_command-Handled ⦃yaml = yaml⦄ law of_f4 of_f8 to_float words cfg packet now s vc)
          e).0
  Step-IsOrdered cfg s t vc v (watch timeout now) =
      watchdog_round-IsOrdered to_float words cfg timeout now s v
  Step-IsOrdered cfg s t vc v (activate released opened e) =
      activate_low_level-IsOrdered to_float words cfg released s t opened e v
  Step-IsOrdered cfg s t vc v (close planned) =
      close_bridge-IsOrdered to_float words cfg planned s v
  Step-IsOrdered cfg s t vc v stop = record {
    first = v.first;
    before_handoff = v.before_handoff;
    after_handoff = v.after_handoff;
    ended = v.ended;
    last = v.last;
  }

  -- However commands, watchdog rounds, the handoff, a stop and the shutdown interleave, from a bridge that
  -- has written nothing: nothing is written before the handoff; the first message that the robot gets,
  -- if any, is a damping command; once the bridge is closed, low-level control is off and the last
  -- message, if any, is a damping command.
  pub Steps-IsOrdered :
      (cfg : CommandConfig F) (s t : CommandState F)
      → IsCommandConfig cfg
      → s.written ≡ []
      → s.low_level_active ≡ false
      → s.closed ≡ false
      → Steps to_float words yaml of_f4 of_f8 cfg s t
      → IsOrdered to_float words cfg t
  Steps-IsOrdered cfg s t vc w off opened done = record {
    first = inl w;
    before_handoff = λ _ _. w;
    after_handoff = λ on. cc;
    ended = λ h. off;
    last = λ h. inl w;
  }
  Steps-IsOrdered cfg s t vc w off opened (next rest step) =
      Step-IsOrdered cfg _ t vc (Steps-IsOrdered cfg s _ vc w off opened rest) step
