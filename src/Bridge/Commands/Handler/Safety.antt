-- ===== src/Bridge/Commands/Handler/Safety.antt =====
-- What a packet can make the bridge write (g1_udp_bridge.cpp, `on_udp_command`).
use grit_deploy_onboard_g.Prelude.{
  ℕ, ◌-◌, ◌≤◌, ◌<◌, ◌≡◌, ◌⊎◌, inl, inr, refl, ◌∙◌, arith, Bool, true, false, not, ◌||◌, ◌&&◌,
  Bool-cases, if-split, Option, none, some, List, [], ◌∷◌, ◌++◌, length, replicate, length-append,
  length-replicate, All, ok, Ensures, returned, Ensures-bind, Ensures-split, Ensures-if,
  Ensures-weaken, Ensures-self, Ensures-at, Ensures-map_m, Returns, returns, catch-Returns,
  if◌then◌else◌,
}
use grit_deploy_onboard_g.Floats.{Floats}
use grit_deploy_onboard_g.Yaml.{Yaml}
use grit_deploy_onboard_g.Yaml.Reads.{IsYaml}
use grit_deploy_onboard_g.Wire.{LatestPacket}
use grit_deploy_onboard_g.Bridge.Arrays.Bounds.{read_array_as_double-length}
use grit_deploy_onboard_g.Bridge.Feedback.{RobotFeedback}
use grit_deploy_onboard_g.Bridge.Commands.{
  LowCmd, CommandConfig, PolicyCommand, motor_slots, has_size, has_valid_values, is_safe_initial,
  read_command, motor_command, make_lowcmd, with_crc,
}
use grit_deploy_onboard_g.Bridge.Commands.Handler.{
  CommandState, command_timed_out, is_old, note_command, feed, dispatch_robot_feedback,
  write_command, accept_command, on_command, handle_packet, on_udp_command,
}

-- A command that has passed the checks of its sizes and values.
pub record IsChecked {ℓ} {F : Type ℓ} ⦃fl : Floats F⦄ (dof : ℕ) (c : PolicyCommand F) : Type 0 where
  pub q : length c.q ≡ dof
  pub qd : length c.qd ≡ dof
  pub kp : length c.kp ≡ dof
  pub kd : length c.kd ≡ dof
  pub values : has_valid_values c ≡ true

abbrev pub AllSome {ℓ κ} : {A : Type ℓ} → (A → Type κ) → Option A → Type κ
AllSome P none = Unit
AllSome P (some a) = P a

-- The bridge's index list points into the policy's joints, and there are no more than 29 motors.
pub record IsCommandConfig {ℓ} {F : Type ℓ} (cfg : CommandConfig F) : Type 0 where
  pub in_range : All (λ i. i < cfg.policy_dof) cfg.policy_to_real
  pub motors : length cfg.policy_to_real ≤ 29

filled {ℓ} :
    {A : Type ℓ} (xs : List A) (a : A)
    → length xs ≤ motor_slots
    → length (xs ++ replicate (motor_slots - length xs) a) ≡ motor_slots
filled xs a h = omega (
  arith,
  length-append xs (replicate (motor_slots - length xs) a),
  length-replicate (motor_slots - length xs) a,
)

module _ {κ} {F : Type κ} ⦃fl : Floats F⦄ where
  checked :
      (dof : ℕ) (c : PolicyCommand F)
      → has_size dof c.q c.qd c.kp c.kd ≡ true
      → AllSome (IsChecked dof) (if has_valid_values c then some c else none)
  unfolding has_size
  checked dof c sized = elim (Bool-cases (has_valid_values c)) [
    | inl valid ↦ rw valid (record {
      q = ground (arith, sized);
      qd = ground (arith, sized);
      kp = ground (arith, sized);
      kd = ground (arith, sized);
      values = valid;
    })
    | inr invalid ↦ rw invalid tt
  ]

  module _ (to_float : F → F) (words : LowCmd F → List ℕ) where
    motor_command-Ensures :
        (dof : ℕ) (c : PolicyCommand F) (i : ℕ)
        → IsChecked dof c
        → i < dof
        → Ensures (λ m. Unit {0}) (motor_command to_float words c i)
    unfolding motor_command
    motor_command-Ensures dof c i v lt = Ensures-bind (Ensures-at c.q i (omega (arith, v))) λ _ _.
        Ensures-bind (Ensures-at c.qd i (omega (arith, v))) λ _ _.
          Ensures-bind (Ensures-at c.kp i (omega (arith, v)))
            λ _ _. Ensures-bind (Ensures-at c.kd i (omega (arith, v))) λ _ _. returned tt

    make_lowcmd-length :
        (cfg : CommandConfig F) (mode_machine : ℕ) (c : PolicyCommand F)
        → IsCommandConfig cfg
        → IsChecked cfg.policy_dof c
        → Ensures
            (λ cmd. length cmd.motor_cmd ≡ motor_slots)
            (make_lowcmd to_float words cfg mode_machine c)
    unfolding make_lowcmd with_crc
    make_lowcmd-length cfg mode_machine c vc v =
        Ensures-bind
          (Ensures-map_m (λ i. i < cfg.policy_dof) (λ m. Unit {0}) _ cfg.policy_to_real
            (λ i lt. motor_command-Ensures cfg.policy_dof c i v lt) vc.in_range)
          λ motors h. returned (filled motors _ (omega (arith, h, vc)))

module _ {κ ℓ} {F : Type κ} ⦃fl : Floats F⦄ {N : Type ℓ} ⦃yaml : Yaml N⦄ where
  feed-keeps :
      (o : Option RobotFeedback) (command : N) (s : CommandState F)
      → ((feed o command s).written ≡ s.written)
        × ((feed o command s).latest_cmd_seq ≡ s.latest_cmd_seq)
        × ((feed o command s).low_level_active ≡ s.low_level_active)
        × ((feed o command s).closed ≡ s.closed)
  unfolding feed
  feed-keeps none command s = (refl, refl, refl, refl)
  feed-keeps (some f) command s = (refl, refl, refl, refl)

  module _ (law : IsYaml yaml) (of_f4 of_f8 : List ℕ → F) where
    read_command-IsChecked :
        (dof : ℕ) (packet : LatestPacket N)
        → Ensures (AllSome (IsChecked dof)) (read_command of_f4 of_f8 dof packet)
    unfolding read_command
    read_command-IsChecked dof packet =
        let read = read_array_as_double-length law of_f4 of_f8 packet.root packet.payload in
        Ensures-bind (read "q_des") λ q _. Ensures-bind (read "qd_des") λ qd _.
          Ensures-bind (read "kp") λ kp _. Ensures-bind (read "kd") λ kd _.
            Ensures-split _
              (λ sized.
                Ensures-bind {P = λ k. Unit {0}}
                  (Ensures-if (yaml.is_defined (yaml.get packet.root "enable"))
                    (Ensures-weaken (law.as_int _) λ _ _. tt) (returned tt))
                  λ enable _. returned (
                    checked dof (record { q = q; qd = qd; kp = kp; kd = kd; enable = enable })
                      sized))
              λ _. returned tt

-- What handling a packet does to what has been written: nothing, or one command more.
pub data Handled {κ ℓ} {F : Type κ} ⦃fl : Floats F⦄ {N : Type ℓ} (to_float : F → F)
    (words : LowCmd F → List ℕ) (cfg : CommandConfig F) (packet : LatestPacket N) (now : ℕ)
    (s : CommandState F) : CommandState F → Type κ where
  ignored :
      {t : CommandState F}
      → t.written ≡ s.written
      → t.low_level_active ≡ s.low_level_active
      → t.closed ≡ s.closed
      → Handled to_float words cfg packet now s t
  wrote :
      {t : CommandState F}
      → (c : PolicyCommand F) → (cmd : LowCmd F) → IsChecked cfg.policy_dof c
      → make_lowcmd to_float words cfg s.mode_machine c ≡ ok cmd
      → length cmd.motor_cmd ≡ motor_slots
      → s.low_level_active ≡ true
      → (is_old packet.seq s ≡ false) ⊎ (command_timed_out cfg.command_timeout_ns now s ≡ true)
      → t.written ≡ s.written ++ (cmd ∷ [])
      → t.latest_cmd_seq ≡ packet.seq
      → t.low_level_active ≡ true
      → t.closed ≡ s.closed
      → Handled to_float words cfg packet now s t

unblocked :
    (fatal stop have : Bool)
    → (fatal || stop) ≡ false
    → not have ≡ false
    → ¬ ((fatal ≡ true) ⊎ (stop ≡ true) ⊎ (have ≡ false))
unblocked true stop have h k e = cc
unblocked false true have h k e = cc
unblocked false false false h k e = cc
unblocked false false true h k (inl e) = cc
unblocked false false true h k (inr (inl e)) = cc
unblocked false false true h k (inr (inr e)) = cc

fresh_or_late : (old late : Bool) → (old && not late) ≡ false → (old ≡ false) ⊎ (late ≡ true)
fresh_or_late false late h = inl refl
fresh_or_late true late h = inr (ground arith)

module _ {κ ℓ} {F : Type κ} ⦃fl : Floats F⦄ {N : Type ℓ} ⦃yaml : Yaml N⦄ (law : IsYaml yaml)
    (of_f4 of_f8 : List ℕ → F) (to_float : F → F) (words : LowCmd F → List ℕ) where
  write_command-Handled :
      (cfg : CommandConfig F) (packet : LatestPacket N) (now : ℕ) (s : CommandState F)
      (c : PolicyCommand F) (cmd : LowCmd F)
      → IsChecked cfg.policy_dof c
      → make_lowcmd to_float words cfg s.mode_machine c ≡ ok cmd
      → length cmd.motor_cmd ≡ motor_slots
      → (is_old packet.seq s ≡ false) ⊎ (command_timed_out cfg.command_timeout_ns now s ≡ true)
      → Handled to_float words cfg packet now s
          (write_command packet.root cmd (note_command packet.seq now s))
  unfolding write_command note_command dispatch_robot_feedback
  write_command-Handled cfg packet now s c cmd v made sized fresh =
      let w : CommandState F = record (note_command packet.seq now s) {
        written = s.written ++ (cmd ∷ []);
        command_timeout_active = false;
      } in
      let h = feed-keeps s.feedback packet.root w in
      if-split (Handled to_float words cfg packet now s) (not s.low_level_active)
        (λ off. ignored refl refl refl)
        λ on. wrote c cmd v made sized (ground arith) fresh h.0 h.1 (h.2 ∙ ground arith) h.3

  accept_command-Handled :
      (cfg : CommandConfig F) (packet : LatestPacket N) (now : ℕ) (s : CommandState F)
      (c : PolicyCommand F) (cmd : LowCmd F)
      → IsChecked cfg.policy_dof c
      → make_lowcmd to_float words cfg s.mode_machine c ≡ ok cmd
      → length cmd.motor_cmd ≡ motor_slots
      → Handled to_float words cfg packet now s
          (accept_command cfg.command_timeout_ns packet now cmd s)
  unfolding accept_command
  accept_command-Handled cfg packet now s c cmd v made sized =
      if-split (Handled to_float words cfg packet now s)
        (is_old packet.seq s && not (command_timed_out cfg.command_timeout_ns now s))
        (λ replay. ignored refl refl refl)
        λ taken.
          write_command-Handled cfg packet now s c cmd v made sized
            (fresh_or_late (is_old packet.seq s) _ taken)

  on_command-Handled :
      (cfg : CommandConfig F) (packet : LatestPacket N) (now : ℕ) (o : Option (PolicyCommand F))
      (s : CommandState F)
      → IsCommandConfig cfg
      → AllSome (IsChecked cfg.policy_dof) o
      → Ensures
          (Handled to_float words cfg packet now s)
          (on_command of_f4 of_f8 to_float words cfg packet now o s)
  unfolding on_command
  on_command-Handled cfg packet now none s vc v = returned (ignored refl refl refl)
  on_command-Handled cfg packet now (some c) s vc v =
      Ensures-split (not s.low_level_active && not (is_safe_initial c))
        (λ early. returned (ignored refl refl refl))
        λ _.
          Ensures-bind (Ensures-self (make_lowcmd-length to_float words cfg s.mode_machine c vc v))
            λ cmd (sized, made).
              returned (accept_command-Handled cfg packet now s c cmd v made sized)

  -- A packet never makes the bridge read outside a buffer, whatever it holds: the handler returns. It
  -- writes at most one command, and writes one only after the handoff, with neither a fatal shutdown nor
  -- a stop requested and the mode machine known, for a packet whose sequence number is newer than the
  -- last one or that comes after a timeout. The command fills the 35 motor slots from four arrays of
  -- the policy's size whose values passed `has_valid_values`. In every other case nothing is written.
  pub on_udp_command-Handled :
      (cfg : CommandConfig F) (packet : LatestPacket N) (now : ℕ) (s : CommandState F)
      → IsCommandConfig cfg
      → Returns
          (λ t.
            Handled to_float words cfg packet now s t
            × ((s.fatal_shutdown_requested ≡ true)
                  ⊎ (s.stop_requested ≡ true)
                  ⊎ (s.have_mode_machine ≡ false)
                → t ≡ s))
          (on_udp_command of_f4 of_f8 to_float words cfg packet now s)
  unfolding on_udp_command handle_packet
  on_udp_command-Handled cfg packet now s vc =
      if-split (Returns _) (s.fatal_shutdown_requested || s.stop_requested)
        (λ ending. returns (ignored refl refl refl, λ _. refl))
        λ running.
          if-split (Returns _) (not s.have_mode_machine)
            (λ unknown. returns (ignored refl refl refl, λ _. refl))
            λ known.
              catch-Returns s (ignored refl refl refl, λ _. refl)
                (Ensures-bind (read_command-IsChecked law of_f4 of_f8 cfg.policy_dof packet) λ o v.
                  Ensures-weaken (on_command-Handled cfg packet now o s vc v)
                    λ t h. (h, λ blocked. absurd (unblocked _ _ _ running known blocked)))
