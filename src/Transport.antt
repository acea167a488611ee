-- ===== src/Transport.antt =====
-- `RobotTransport` (g1_sim2real/src/g1_npz_policy.cpp): the commands to the bridge, their counters and
-- the announcements that ride on them.
pub mod Packet
pub mod Packing
pub mod Receive
pub mod Opened
pub mod Received
use Prim.Native.String.{String}
use grit_deploy_onboard_g.Prelude.{ℕ, ◌+◌, ◌%◌, ◌^◌, Bool, true, false, List, ◌∷◌, if◌then◌else◌}

-- What one datagram to the bridge says.
pub record Command {ℓ} (F : Type ℓ) : Type ℓ where
  pub seq : ℕ
  pub q_des : List F
  pub qd_des : List F
  pub kp : List F
  pub kd : List F
  pub enable : ℕ
  pub state_receive_time_ns : ℕ
  pub announcement_id : ℕ
  pub announcement : String
  pub mode_indicator_id : ℕ
  pub mode_indicator : String

-- The counters, and the commands that the socket has taken, the newest first.
pub record Transport {ℓ} (F : Type ℓ) : Type ℓ where
  pub sequence : ℕ
  pub announcement_id : ℕ
  pub announcement : String
  pub mode_indicator_id : ℕ
  pub mode_indicator : String
  pub sent : List (Command F)

-- `++counter` on a `uint64_t`.
abbrev pub count_up : ℕ → ℕ
count_up counter = (counter + 1) % 2 ^ 64

module _ {ℓ} {F : Type ℓ} where
  unfoldable pub announce : String → Transport F → Transport F
  announce message t = record t {
    announcement = message;
    announcement_id = count_up t.announcement_id;
  }

  unfoldable pub announce_mode : String → String → Transport F → Transport F
  unfolding announce
  announce_mode message indicator t = record (announce message t) {
    mode_indicator = indicator;
    mode_indicator_id = count_up t.mode_indicator_id;
  }

  abbrev pub make_command : List F → List F → List F → List F → ℕ → ℕ → Transport F → Command F
  make_command q qd kp kd enable state_receive_time_ns t = record {
    seq = t.sequence;
    q_des = q;
    qd_des = qd;
    kp = kp;
    kd = kd;
    enable = enable;
    state_receive_time_ns = state_receive_time_ns;
    announcement_id = t.announcement_id;
    announcement = t.announcement;
    mode_indicator_id = t.mode_indicator_id;
    mode_indicator = t.mode_indicator;
  }

  -- `delivered` says whether `sendto` takes the whole packet; `send` throws where it does not.
  unfoldable pub send : (Command F → Bool) → Command F → Transport F → Transport F × Bool
  send delivered command t =
      let counted = record t { sequence = count_up t.sequence } in
      if delivered command
      then (record counted { sent = command ∷ t.sent }, true)
      else (counted, false)
