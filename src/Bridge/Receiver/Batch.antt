-- ===== src/Bridge/Receiver/Batch.antt =====
-- The batches of `UdpLatestReceiver::recv_loop` (g1_udp_bridge.cpp): the last datagram decides.
use Prim.Native.String.{String}
use mathlib.Core.Path.{subst}
use grit_deploy_onboard_g.Prelude.{
  ℕ, ◌+◌, ◌^◌, ◌<◌, ◌≡◌, refl, arith, ap, ◌∙◌, sym, Option, none, some, List, [], ◌∷◌, ◌++◌, length,
  ◌==◌, ==→eq, if-split, Result, ok, err, Ensures, returned, thrown, Returns, returns,
  runtime_error,
}
use grit_deploy_onboard_g.Wire.{LatestPacket, decode_datagram}
use grit_deploy_onboard_g.Wire.Checks.{IsAccepted, decode_datagram-IsAccepted}
use grit_deploy_onboard_g.Bridge.Ticks.{fetch_add}
use grit_deploy_onboard_g.Bridge.Receiver.{
  Datagram, Receiver, drain, finish, take_packet, receive_batch,
}

-- The receiver after `n` more datagrams.
abbrev pub counted : ℕ → Receiver → Receiver
counted n r = record r { packets_received = fetch_add r.packets_received n }

drain-append :
    (older : List Datagram) (last first : Datagram) (r : Receiver)
    → r.packets_received < 2 ^ 64
    → drain (older ++ last ∷ []) r first ≡ (counted (length older + 1) r, last)
unfolding drain
drain-append [] last first r small = refl
drain-append (datagram ∷ older) last first r small =
    drain-append older last datagram (counted 1 r) (omega arith)
    ∙ ap (λ n. (record r { packets_received = n }, last)) (omega arith)

module _ {ℓ} {N : Type ℓ} (crc32 : ℕ → List ℕ → ℕ) (yaml_load : List ℕ → Result N) where
  -- The ends of a round: an empty datagram, a refused one, and one that the callback gets.
  pub data Taken (last : Datagram) (r : Receiver)
      : Receiver × Option (LatestPacket N) → Type ℓ where
    skipped : length last.bytes ≡ 0 → Taken last r (r, none)
    refused :
        {message : String}
        → decode_datagram crc32 yaml_load last.bytes ≡ err (runtime_error message)
        → Taken last r (record r { decode_errors = fetch_add r.decode_errors 1 }, none)
    delivered :
        {decoded : LatestPacket N}
        → decode_datagram crc32 yaml_load last.bytes ≡ ok decoded
        → IsAccepted crc32 yaml_load last.bytes decoded
        → Taken last r (
          record r { packets_decoded = fetch_add r.packets_decoded 1 },
          some (record decoded { recv_time_ns = last.recv_time }),
        )

  finish-Taken :
      (last : Datagram) (r : Receiver) {call : Result (LatestPacket N)}
      → decode_datagram crc32 yaml_load last.bytes ≡ call
      → Ensures (IsAccepted crc32 yaml_load last.bytes) call
      → Returns (Taken last r) (finish last.recv_time r call)
  unfolding finish
  finish-Taken last r e (returned accepted) = returns (delivered e accepted)
  finish-Taken last r e thrown = returns (refused e)

  take_packet-Taken :
      (last : Datagram) (r : Receiver)
      → length last.bytes < 2 ^ 32
      → ((text : List ℕ) → Ensures (λ n. Unit {0}) (yaml_load text))
      → Returns (Taken last r) (take_packet crc32 yaml_load (r, last))
  unfolding take_packet
  take_packet-Taken last r small loads =
      if-split (Returns (Taken last r)) (length last.bytes == 0)
        (λ h. returns (skipped (==→eq _ _ h)))
        λ _.
          finish-Taken last r refl
            (decode_datagram-IsAccepted crc32 yaml_load last.bytes small loads)

  -- A round with waiting datagrams returns, and its last datagram alone decides what the callback gets:
  -- nothing where it is empty or refused, and otherwise its packet, which has passed the checks of
  -- `decode_datagram`, with its time of arrival. Every datagram is counted. The received counter is
  -- below 2^64, a datagram is shorter than 2^32, and YAML's loader returns or throws.
  pub receive_batch-Taken :
      (older : List Datagram) (last : Datagram) (r : Receiver)
      → r.packets_received < 2 ^ 64
      → length last.bytes < 2 ^ 32
      → ((text : List ℕ) → Ensures (λ n. Unit {0}) (yaml_load text))
      → Returns
          (Taken last (counted (length older + 1) r))
          (receive_batch crc32 yaml_load (older ++ last ∷ []) r)
  unfolding receive_batch
  receive_batch-Taken older last r few small loads =
      subst
        (λ d. Returns (Taken last (counted (length older + 1) r)) (take_packet crc32 yaml_load d))
        (sym (drain-append older last (record { bytes = []; recv_time = 0 }) r few))
        (take_packet-Taken last (counted (length older + 1) r) small loads)
