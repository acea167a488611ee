-- ===== src/Bridge/Receiver.antt =====
-- `UdpLatestReceiver::recv_loop` (g1_sim2real/src/g1_udp_bridge.cpp), one round after `select` has
-- found the socket readable: every waiting datagram is read, and the last one is decoded.
pub mod Batch
use grit_deploy_onboard_g.Prelude.{
  ℕ, ◌+◌, Option, none, some, List, [], ◌∷◌, ◌==◌, length, if◌then◌else◌, Result, ok, err,
  runtime_error, out_of_bounds, diverged,
}
use grit_deploy_onboard_g.Wire.{LatestPacket, decode_datagram}
use grit_deploy_onboard_g.Bridge.Ticks.{fetch_add}

-- What `recvfrom` gives, and the clock after it.
pub record Datagram : Type 0 where
  pub bytes : List ℕ
  pub recv_time : ℕ

pub record Receiver : Type 0 where
  pub packets_received : ℕ
  pub packets_decoded : ℕ
  pub decode_errors : ℕ

-- The inner loop, with `last_packet` and `recv_time`; it ends where `recvfrom` has no more.
unfoldable pub drain : List Datagram → Receiver → Datagram → Receiver × Datagram
drain [] r last = (r, last)
drain (datagram ∷ waiting) r last =
    drain waiting (record r { packets_received = fetch_add r.packets_received 1 }) datagram

module _ {ℓ} {N : Type ℓ} where
  -- The end of the `try` block: the packet, if any, that the callback is called with. The callback,
  -- `on_udp_command`, catches what it throws.
  unfoldable pub finish :
      ℕ → Receiver → Result (LatestPacket N) → Result (Receiver × Option (LatestPacket N))
  finish recv_time r (ok decoded) = ok (
    record r { packets_decoded = fetch_add r.packets_decoded 1 },
    some (record decoded { recv_time_ns = recv_time }),
  )
  finish recv_time r (err (runtime_error message)) =
      ok (record r { decode_errors = fetch_add r.decode_errors 1 }, none)
  finish recv_time r (err out_of_bounds) = err out_of_bounds
  finish recv_time r (err diverged) = err diverged

  module _ (crc32 : ℕ → List ℕ → ℕ) (yaml_load : List ℕ → Result N) where
    unfoldable pub take_packet : Receiver × Datagram → Result (Receiver × Option (LatestPacket N))
    take_packet (r, last) =
        if length last.bytes == 0
        then ok (r, none)
        else finish last.recv_time r (decode_datagram crc32 yaml_load last.bytes)

    unfoldable pub receive_batch :
        List Datagram → Receiver → Result (Receiver × Option (LatestPacket N))
    receive_batch waiting r = take_packet (drain waiting r (record { bytes = []; recv_time = 0 }))
