-- ===== src/Bridge/Commands.antt =====
-- Commands to the motors: g1_sim2real/src/g1_udp_bridge.cpp, `on_udp_command` with the messages that it
-- and the damping path write. `float` and `double` are one type here, with the conversion `to_float`.
pub mod Handler
pub mod Lifecycle
use Prim.Native.String.{String}
use grit_deploy_onboard_g.Prelude.{
  ℕ, ◌+◌, ◌-◌, ◌%◌, ◌^◌, Bool, true, false, not, ◌||◌, ◌&&◌, Option, none, some, List, [], ◌∷◌,
  ◌++◌, length, drop, replicate, all_of, ltb, leb, ◌==◌, if◌then◌else◌, Result, ok, ◌>>=◌, at,
  map_m,
}
use grit_deploy_onboard_g.Floats.{Floats, float}
use grit_deploy_onboard_g.Yaml.{Yaml}
use grit_deploy_onboard_g.Wire.{LatestPacket}
use grit_deploy_onboard_g.Bridge.Arrays.{read_array_as_double}
use grit_deploy_onboard_g.Bridge.Checksum.{crc32_core}

pub record MotorCmd {ℓ} (F : Type ℓ) : Type ℓ where
  pub mode : ℕ
  pub q : F
  pub dq : F
  pub kp : F
  pub kd : F
  pub tau : F

-- The SDK's `LowCmd_`: 35 motor slots; the first reserved word tells the command's `enable`.
pub record LowCmd {ℓ} (F : Type ℓ) : Type ℓ where
  pub mode_pr : ℕ
  pub mode_machine : ℕ
  pub motor_cmd : List (MotorCmd F)
  pub reserve_0 : ℕ
  pub crc : ℕ

abbrev pub motor_slots : ℕ
motor_slots = 35

-- What `BridgeConfig` and the constructor fix: the sizes of the joint lists, `policy_to_real_`, and
-- the values of `low_level`.
pub record CommandConfig {ℓ} (F : Type ℓ) : Type ℓ where
  pub policy_dof : ℕ
  pub policy_to_real : List ℕ
  pub mode_pr : ℕ
  pub damping_kd : F
  pub command_timeout_ns : ℕ

-- The fields of a command that has passed the checks.
pub record PolicyCommand {ℓ} (F : Type ℓ) : Type ℓ where
  pub q : List F
  pub qd : List F
  pub kp : List F
  pub kd : List F
  pub enable : ℕ

module _ {κ} {F : Type κ} ⦃fl : Floats F⦄ where
  abbrev pub is_zero : F → Bool
  is_zero value = fl.le value (float 0) && fl.le (float 0) value

  abbrev pub all_finite : List F → Bool
  all_finite values = all_of fl.isfinite values

  abbrev pub all_nonnegative : List F → Bool
  all_nonnegative values = all_of (fl.le (float 0)) values

  -- The four arrays have the policy's size.
  unfoldable pub has_size : ℕ → List F → List F → List F → List F → Bool
  has_size dof q qd kp kd =
      (length q == dof) && ((length qd == dof) && ((length kp == dof) && (length kd == dof)))

  unfoldable pub has_valid_values : PolicyCommand F → Bool
  has_valid_values c =
      all_finite c.q
      && (all_finite c.qd
          && (all_finite c.kp
              && (all_finite c.kd
                  && (all_nonnegative c.kp
                      && (all_nonnegative c.kd && ((c.enable == 0) || (c.enable == 1)))))))

  unfoldable pub is_safe_initial : PolicyCommand F → Bool
  is_safe_initial c = (c.enable == 0) && all_of is_zero c.kp

  abbrev pub idle_motor : F → MotorCmd F
  idle_motor kd = record {
    mode = 1;
    q = float 0;
    dq = float 0;
    kp = float 0;
    kd = kd;
    tau = float 0;
  }

  module _ {ℓ} {N : Type ℓ} ⦃yaml : Yaml N⦄ (of_f4 of_f8 : List ℕ → F) where
    -- The arrays and the flag of a packet; none where the packet is ignored.
    unfoldable pub read_command : ℕ → LatestPacket N → Result (Option (PolicyCommand F))
    read_command dof packet = do
      q ← read_array_as_double of_f4 of_f8 packet.root packet.payload "q_des"
      qd ← read_array_as_double of_f4 of_f8 packet.root packet.payload "qd_des"
      kp ← read_array_as_double of_f4 of_f8 packet.root packet.payload "kp"
      kd ← read_array_as_double of_f4 of_f8 packet.root packet.payload "kd"
      let enable_node = yaml.get packet.root "enable"
      let checked = do
        enable ← if yaml.is_defined enable_node then yaml.as_int enable_node else ok 0
        let c : PolicyCommand F = record { q = q; qd = qd; kp = kp; kd = kd; enable = enable }
        ok (if has_valid_values c then some c else none)
      if has_size dof q qd kp kd then checked else ok none

  -- `words` is the memory of a message without its last word, as `uint32_t` values.
  module _ (to_float : F → F) (words : LowCmd F → List ℕ) where
    unfoldable pub with_crc : LowCmd F → LowCmd F
    with_crc cmd = record cmd { crc = crc32_core (words cmd) }

    unfoldable pub motor_command : PolicyCommand F → ℕ → Result (MotorCmd F)
    motor_command c policy_idx = do
      q ← at c.q policy_idx
      qd ← at c.qd policy_idx
      kp ← at c.kp policy_idx
      kd ← at c.kd policy_idx
      ok (record {
        mode = 1;
        q = to_float q;
        dq = to_float qd;
        kp = to_float kp;
        kd = to_float kd;
        tau = float 0;
      })

    -- The motors of the joint list, then idle slots. (`motor_cmd().at` takes up to 35; `load_config`
    -- refuses more than 29 joints.)
    unfoldable pub make_lowcmd : CommandConfig F → ℕ → PolicyCommand F → Result (LowCmd F)
    make_lowcmd cfg mode_machine c = do
      motors ← map_m (motor_command c) cfg.policy_to_real
      ok (
          with_crc (record {
            mode_pr = cfg.mode_pr;
            mode_machine = mode_machine;
            motor_cmd = motors ++ replicate (motor_slots - length motors) (idle_motor (float 0));
            reserve_0 = c.enable;
            crc = 0;
          }))

    -- `write_damping_command_locked`.
    unfoldable pub damping_command : CommandConfig F → ℕ → LowCmd F
    damping_command cfg mode_machine = with_crc (record {
      mode_pr = cfg.mode_pr;
      mode_machine = mode_machine;
      motor_cmd = replicate motor_slots (idle_motor (to_float cfg.damping_kd));
      reserve_0 = 0;
      crc = 0;
    })
