-- ===== src/Bridge/Commands/Handler.antt =====
-- The handler of a command and the watchdog: g1_sim2real/src/g1_udp_bridge.cpp, `on_udp_command`,
-- `command_timed_out`, `dispatch_robot_feedback`, `command_watchdog_loop`.
pub mod Safety
use Prim.Native.String.{String}
use grit_deploy_onboard_g.Prelude.{
  ℕ, zero, suc, ◌+◌, ◌-◌, ◌%◌, ◌^◌, Bool, true, false, not, ◌||◌, ◌&&◌, Option, none, some, is_some,
  List, [], ◌∷◌, ◌++◌, ltb, leb, ◌==◌, if◌then◌else◌, Result, ok, catch, ◌>>=◌,
}
use grit_deploy_onboard_g.Floats.{Floats}
use grit_deploy_onboard_g.Yaml.{Yaml}
use grit_deploy_onboard_g.Wire.{LatestPacket}
use grit_deploy_onboard_g.Bridge.Ticks.{fetch_add}
use grit_deploy_onboard_g.Bridge.Feedback.{FeedbackEvent, RobotFeedback, mode_led_color, enqueue}
use grit_deploy_onboard_g.Bridge.Commands.{
  LowCmd, CommandConfig, PolicyCommand, is_safe_initial, read_command, make_lowcmd, damping_command,
}

-- The members of `G1UdpBridge` on the command path. `written` is what the publisher has been given.
pub record CommandState {ℓ} (F : Type ℓ) : Type ℓ where
  pub fatal_shutdown_requested : Bool
  pub stop_requested : Bool
  pub have_mode_machine : Bool
  pub mode_machine : ℕ
  pub low_level_active : Bool
  pub warned_unsafe_initial_command : Bool
  pub have_latest_cmd_seq : Bool
  pub latest_cmd_seq : ℕ
  pub last_valid_command_ns : ℕ
  pub have_initial_valid_command : Bool
  pub command_timeout_active : Bool
  pub command_timeout_event_count : ℕ
  pub last_announcement_id : ℕ
  pub last_mode_indicator_id : ℕ
  pub feedback : Option RobotFeedback
  pub command_forward_count : ℕ
  pub closed : Bool
  pub written : List (LowCmd F)

-- `a <= b` on `int64_t`, for the bits of two numbers.
abbrev pub signed_le : ℕ → ℕ → Bool
signed_le a b = leb ((a + 2 ^ 63) % 2 ^ 64) ((b + 2 ^ 63) % 2 ^ 64)

unfoldable pub command_timed_out {ℓ} : {F : Type ℓ} → ℕ → ℕ → CommandState F → Bool
command_timed_out timeout now s =
    (s.last_valid_command_ns == 0)
    || (ltb now s.last_valid_command_ns || ltb timeout (now - s.last_valid_command_ns))

module _ {κ} {F : Type κ} where
  -- Whether the sequence number is not newer than the last one.
  unfoldable pub is_old : ℕ → CommandState F → Bool
  is_old seq s = s.have_latest_cmd_seq && signed_le seq s.latest_cmd_seq

  unfoldable pub note_command : ℕ → ℕ → CommandState F → CommandState F
  note_command seq received_at_ns s = record s {
    last_announcement_id = if is_old seq s then 0 else s.last_announcement_id;
    last_mode_indicator_id = if is_old seq s then 0 else s.last_mode_indicator_id;
    latest_cmd_seq = seq;
    have_latest_cmd_seq = true;
    last_valid_command_ns = received_at_ns;
    have_initial_valid_command = true;
  }

  module _ {ℓ} {N : Type ℓ} ⦃yaml : Yaml N⦄ where
    -- A new announcement is spoken and a new mode is shown, each once.
    unfoldable pub feed : Option RobotFeedback → N → CommandState F → CommandState F
    feed none command s = s
    feed (some f) command s =
        let announcement_id = yaml.size_or (yaml.get command "announcement_id") 0 in
        let mode_indicator_id = yaml.size_or (yaml.get command "mode_indicator_id") 0 in
        let speaks = ltb s.last_announcement_id announcement_id in
        let shows = ltb s.last_mode_indicator_id mode_indicator_id in
        let event : FeedbackEvent = record {
          speech = if speaks then yaml.string_or (yaml.get command "announcement") "" else "";
          led_rgb =
              if shows
              then mode_led_color (yaml.string_or (yaml.get command "mode_indicator") "")
              else none;
        } in
        record s {
          last_announcement_id = if speaks then announcement_id else s.last_announcement_id;
          last_mode_indicator_id = if shows then mode_indicator_id else s.last_mode_indicator_id;
          feedback = some (enqueue event f);
        }

    unfoldable pub dispatch_robot_feedback : N → CommandState F → CommandState F
    dispatch_robot_feedback command s = feed s.feedback command s

    -- The guarded part under the write lock, and what follows a write.
    unfoldable pub write_command : N → LowCmd F → CommandState F → CommandState F
    write_command command cmd s =
        let out =
          dispatch_robot_feedback command
            (record s { written = s.written ++ (cmd ∷ []); command_timeout_active = false }) in
        if not s.low_level_active
        then s
        else record out { command_forward_count = fetch_add out.command_forward_count 1 }

    -- From `received_at_ns` on: an old command is taken only after a timeout.
    unfoldable pub accept_command :
        ℕ → LatestPacket N → ℕ → LowCmd F → CommandState F → CommandState F
    accept_command timeout packet received_at_ns cmd s =
        if is_old packet.seq s && not (command_timed_out timeout received_at_ns s)
        then s
        else write_command packet.root cmd (note_command packet.seq received_at_ns s)

module _ {κ ℓ} {F : Type κ} ⦃fl : Floats F⦄ {N : Type ℓ} ⦃yaml : Yaml N⦄ where
  module _ (of_f4 of_f8 : List ℕ → F) (to_float : F → F) (words : LowCmd F → List ℕ) where
    -- The part behind the checks of the packet's values.
    unfoldable pub on_command :
        CommandConfig F
        → LatestPacket N
        → ℕ
        → Option (PolicyCommand F)
        → CommandState F
        → Result (CommandState F)
    on_command cfg packet received_at_ns none s = ok s
    on_command cfg packet received_at_ns (some c) s = do
      let forward = do
        cmd ← make_lowcmd to_float words cfg s.mode_machine c
        ok (accept_command cfg.command_timeout_ns packet received_at_ns cmd s)
      if not s.low_level_active && not (is_safe_initial c)
          then ok (record s { warned_unsafe_initial_command = true })
          else forward

    unfoldable pub handle_packet :
        CommandConfig F → LatestPacket N → ℕ → CommandState F → Result (CommandState F)
    handle_packet cfg packet received_at_ns s = do
      c ← read_command of_f4 of_f8 cfg.policy_dof packet
      on_command cfg packet received_at_ns c s

    -- An exception ends the handler and changes nothing.
    unfoldable pub on_udp_command :
        CommandConfig F → LatestPacket N → ℕ → CommandState F → Result (CommandState F)
    on_udp_command cfg packet received_at_ns s =
        if s.fatal_shutdown_requested || s.stop_requested
        then ok s
        else if not s.have_mode_machine
        then ok s
        else catch s (handle_packet cfg packet received_at_ns s)

-- A round of the watchdog, at time `now`: a timeout is counted once.
unfoldable pub watchdog_round {ℓ} : {F : Type ℓ} → ℕ → ℕ → CommandState F → CommandState F
watchdog_round timeout now s =
    if s.low_level_active && (command_timed_out timeout now s && not s.command_timeout_active)
    then record s {
      command_timeout_active = true;
      command_timeout_event_count = fetch_add s.command_timeout_event_count 1;
    }
    else s
