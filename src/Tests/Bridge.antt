-- ===== src/Tests/Bridge.antt =====
-- The theorems on the bridge and its datagrams (g1_sim2real/src/g1_udp_bridge.cpp) at concrete inputs.
use Prim.Native.String.{String}
use grit_deploy_onboard_g.Prelude.{
  ℕ, ◌+◌, ◌-◌, ◌^◌, ◌≡◌, ◌⊎◌, refl, arith, Bool, true, false, List, [], ◌∷◌, none, some, length,
  Result, ok, require, Ensures-if, ltb, ◌==◌, ◌%◌, if◌then◌else◌, throw, map_m, Ensures, returned,
  thrown, Returns,
}
use grit_deploy_onboard_g.Yaml.{Yaml, same_text}
use grit_deploy_onboard_g.Yaml.Reads.{IsYaml}
use grit_deploy_onboard_g.Wire.{LatestPacket, encode_packet, encode_datagram, decode_datagram}
use grit_deploy_onboard_g.Wire.RoundTrip.{
  IsIncremental, encode_datagram-encode_packet, decode_datagram-encode_packet,
}
use grit_deploy_onboard_g.Wire.Checks.{IsAccepted, decode_datagram-IsAccepted}
use grit_deploy_onboard_g.Bridge.Receiver.{receive_batch}
use grit_deploy_onboard_g.Bridge.Receiver.Batch.{Taken, receive_batch-Taken}
use grit_deploy_onboard_g.Bridge.Ticks.{StatePublishMode, Ticks, add_tick, update_lowstate_tick}
use grit_deploy_onboard_g.Bridge.Ticks.Schedule.{IsScheduled, Outcome, update_lowstate_tick-Outcome}
use grit_deploy_onboard_g.Bridge.Ticks.Runs.{
  count_published, IsDue, count_published-IsDue, Acts, large_decimation-Acts,
}
use grit_deploy_onboard_g.Bridge.Samples.{
  LowState, Samples, take_snapshot, on_lowstate, callback, send, no_step, then_step,
}
use grit_deploy_onboard_g.Bridge.Samples.Sound.{IsSound, SampleSteps-IsSound}
use grit_deploy_onboard_g.Bridge.Arrays.{read_array_as_double}
use grit_deploy_onboard_g.Bridge.Arrays.Bounds.{product, read_array_as_double-length}
use grit_deploy_onboard_g.Bridge.Feedback.{FeedbackEvent, max_queued_feedback}
use grit_deploy_onboard_g.Bridge.Feedback.Queue.{
  accepted, enqueue_all, keep_last, enqueue_all-keep_last,
}
use grit_deploy_onboard_g.Bridge.Commands.{LowCmd, CommandConfig}
use grit_deploy_onboard_g.Bridge.Commands.Handler.{CommandState, on_udp_command}
use grit_deploy_onboard_g.Bridge.Commands.Handler.Safety.{
  IsCommandConfig, Handled, on_udp_command-Handled,
}
use grit_deploy_onboard_g.Bridge.Commands.Lifecycle.{
  publish_damping, activate_low_level, close_bridge, done, next, activate, close, stop,
}
use grit_deploy_onboard_g.Bridge.Commands.Lifecycle.Order.{IsOrdered, Steps-IsOrdered}
use grit_deploy_onboard_g.Tests.Values.{whole}

-- A sum of bytes in place of zlib's checksum.
abbrev sum : ℕ → List ℕ → ℕ
sum c [] = c
sum c (x ∷ xs) = sum (c + x) xs

sum-IsIncremental : IsIncremental sum
sum-IsIncremental c [] ys = refl
sum-IsIncremental c (x ∷ xs) ys = sum-IsIncremental (c + x) xs ys

-- A text is its own node.
abbrev load_bytes : List ℕ → Result (List ℕ)
load_bytes text = ok text

encode_datagram-encode_packet_example :
    encode_datagram sum (1 ∷ 2 ∷ []) (3 ∷ []) 7 9 ≡ ok (encode_packet sum (1 ∷ 2 ∷ []) (3 ∷ []) 7 9)
encode_datagram-encode_packet_example =
    encode_datagram-encode_packet sum (1 ∷ 2 ∷ []) (3 ∷ []) 7 9 sum-IsIncremental (omega arith)
      (omega arith)

decode_datagram-encode_packet_example :
    decode_datagram sum load_bytes (encode_packet sum (1 ∷ 2 ∷ []) (3 ∷ []) 700 9)
    ≡ ok (record {
      seq = 700;
      send_time_ns = 9;
      recv_time_ns = 0;
      root = 1 ∷ 2 ∷ [];
      payload = 3 ∷ [];
    })
decode_datagram-encode_packet_example =
    decode_datagram-encode_packet sum load_bytes (1 ∷ 2 ∷ []) (3 ∷ []) 700 9 sum-IsIncremental
      (omega arith) (omega arith) (omega arith) refl

-- A datagram with two bytes of text and one of payload.
abbrev datagram : List ℕ
datagram =
    85 ∷ 76 ∷ 68 ∷ 80 ∷ 1 ∷ 0 ∷ 0 ∷ 0 ∷ 0 ∷ 0 ∷ 0 ∷ 0 ∷ 0 ∷ 0 ∷ 0 ∷ 7 ∷ 0 ∷ 0 ∷ 0 ∷ 0 ∷ 0 ∷ 0 ∷ 0
    ∷ 9 ∷ 0 ∷ 0 ∷ 0 ∷ 2 ∷ 0 ∷ 0 ∷ 0 ∷ 1 ∷ 0 ∷ 0 ∷ 1 ∷ 79 ∷ 1 ∷ 2 ∷ 3 ∷ []

decode_datagram-IsAccepted_example :
    Ensures (IsAccepted sum load_bytes datagram) (decode_datagram sum load_bytes datagram)
decode_datagram-IsAccepted_example =
    decode_datagram-IsAccepted sum load_bytes datagram (omega arith) (λ text. returned tt)

abbrev ticking : ℕ → ℕ → Ticks
ticking last due = record {
  last_lowstate_tick = some last;
  next_state_tick = some due;
  duplicate_tick_count = 0;
  tick_gap_count = 0;
  tick_missing_count = 0;
  tick_reset_count = 0;
  lowstate_count = 1;
  unique_tick = 1;
  fatal_shutdown_requested = false;
  stop_requested = false;
}

-- Two ticks before the counter wraps, with the next state due behind the wrap.
ticking-IsScheduled : IsScheduled 10 (2 ^ 32 - 2) 5 (ticking (2 ^ 32 - 2) 3)
ticking-IsScheduled = record {
  last_eq = refl;
  next_eq = refl;
  tick = omega arith;
  soon = omega arith;
  later = omega arith;
}

update_lowstate_tick-Outcome_example : Outcome 10 (2 ^ 32 - 2) 5 7 (ticking (2 ^ 32 - 2) 3) (
    update_lowstate_tick StatePublishMode.lowstate_tick 10
      (add_tick (2 ^ 32 - 2) 7)
      (ticking (2 ^ 32 - 2) 3))
update_lowstate_tick-Outcome_example =
    update_lowstate_tick-Outcome 10 (2 ^ 32 - 2) 5 7 (ticking (2 ^ 32 - 2) 3) (omega arith)
      (omega arith) (omega arith) ticking-IsScheduled

count_published-IsDue_example :
    IsDue 10 5 33 (count_published 10 (2 ^ 32 - 2) 33 (ticking (2 ^ 32 - 2) 3))
count_published-IsDue_example =
    count_published-IsDue 33 10 (2 ^ 32 - 2) 5 (ticking (2 ^ 32 - 2) 3) (omega arith)
      ticking-IsScheduled refl

large_decimation-Acts_example : Acts (
    update_lowstate_tick StatePublishMode.lowstate_tick 3000000000
      (add_tick 1 1)
      (ticking 1 3000000001))
large_decimation-Acts_example =
    large_decimation-Acts 3000000000 1 (ticking 1 3000000001) (omega arith) (omega arith) (record {
      last_eq = refl;
      next_eq = refl;
      tick = omega arith;
      soon = omega arith;
      later = omega arith;
    })

-- A text with one kind of array, of one `float`: 1 is the root, 2 the array, 10 + n the number n.
abbrev child : ℕ → String → ℕ
child n key =
    if n == 1
    then if same_text key "enable" then 11 else 2
    else if n == 2
    then if same_text key "__udp_latest_type__"
      then 3
      else if same_text key "dtype"
      then 4
      else if same_text key "shape"
      then 5
      else if same_text key "nbytes"
      then 14
      else 10
    else 0

instance abbrev one_array : Yaml ℕ
one_array = record {
  get = child;
  is_defined = λ n. ltb 0 n;
  is_map = λ n. n == 2;
  is_sequence = λ n. n == 5;
  items = λ n. if n == 5 then 11 ∷ [] else [];
  as_string = λ n. if n == 3 then ok "ndarray" else if n == 4 then ok "<f4" else throw "no text";
  as_size = λ n. ok ((n - 10) % 2 ^ 64);
  as_int = λ n. ok ((n - 10) % 2 ^ 32);
  size_or = λ n d. d;
  string_or = λ n d. d;
  bool_or = λ n d. d;
  int_or = λ n d. d;
  child = λ n key. ok (child n key);
  element = λ n i. throw "no element";
}

one_array-IsYaml : IsYaml one_array
one_array-IsYaml = record {
  as_string = λ n. Ensures-if (n == 3) (returned tt) (Ensures-if (n == 4) (returned tt) thrown);
  as_size = λ n. returned (omega arith);
  as_int = λ n. returned (omega arith);
  child = λ n key. returned tt;
  element = λ n i. thrown;
  int_or = λ n k h. h;
}

-- The sum of an element's bytes in place of its value.
abbrev value : List ℕ → ℕ
value bytes = sum 0 bytes

read_array_as_double-length_example :
    Ensures
      (λ out.
        (ds : List ℕ) × (map_m one_array.as_size
            (one_array.items (one_array.get (one_array.get 1 "kp") "shape"))
          ≡ ok ds)
        × (length out ≡ product ds))
      (read_array_as_double {N = ℕ} value value 1 (1 ∷ 2 ∷ 3 ∷ 4 ∷ []) "kp")
read_array_as_double-length_example =
    read_array_as_double-length one_array-IsYaml value value 1 (1 ∷ 2 ∷ 3 ∷ 4 ∷ []) "kp"

abbrev event : String → FeedbackEvent
event speech = record { speech = speech; led_rgb = none }

enqueue_all-keep_last_example :
    (enqueue_all
      (event "vr" ∷ event "" ∷ event "loco" ∷ [])
      (record { voice_enabled = true; queue = []; stop = false })).queue
    ≡ keep_last max_queued_feedback (accepted true (event "vr" ∷ event "" ∷ event "loco" ∷ []))
enqueue_all-keep_last_example =
    enqueue_all-keep_last (event "vr" ∷ event "" ∷ event "loco" ∷ []) true

abbrev one_joint : CommandConfig ℕ
one_joint = record {
  policy_dof = 1;
  policy_to_real = 0 ∷ [];
  mode_pr = 0;
  damping_kd = 8;
  command_timeout_ns = 200000000;
}

one_joint-IsCommandConfig : IsCommandConfig one_joint
one_joint-IsCommandConfig = record { in_range = ground arith; motors = omega arith }

abbrev bridge_state : Bool → CommandState ℕ
bridge_state active = record {
  fatal_shutdown_requested = false;
  stop_requested = false;
  have_mode_machine = true;
  mode_machine = 5;
  low_level_active = active;
  warned_unsafe_initial_command = false;
  have_latest_cmd_seq = true;
  latest_cmd_seq = 6;
  last_valid_command_ns = 100;
  have_initial_valid_command = true;
  command_timeout_active = false;
  command_timeout_event_count = 0;
  last_announcement_id = 0;
  last_mode_indicator_id = 0;
  feedback = none;
  command_forward_count = 0;
  closed = false;
  written = [];
}

abbrev packet : LatestPacket ℕ
packet = record {
  seq = 7;
  send_time_ns = 0;
  recv_time_ns = 0;
  root = 1;
  payload = 1 ∷ 2 ∷ 3 ∷ 4 ∷ [];
}

-- A message by its mode alone.
abbrev words : LowCmd ℕ → List ℕ
words cmd = cmd.mode_machine ∷ cmd.reserve_0 ∷ []

on_udp_command-Handled_example :
    Returns
      (λ t.
        Handled (λ x. x) words one_joint packet 300 (bridge_state true) t
        × ((false ≡ true) ⊎ (false ≡ true) ⊎ (true ≡ false) → t ≡ bridge_state true))
      (on_udp_command value value (λ x. x) words one_joint packet 300 (bridge_state true))
on_udp_command-Handled_example =
    on_udp_command-Handled one_array-IsYaml value value (λ x. x) words one_joint packet 300
      (bridge_state true) one_joint-IsCommandConfig

-- The bridge after the handoff and after a stop.
abbrev handed_over : CommandState ℕ
handed_over = record (publish_damping (λ x. x) words one_joint (bridge_state false)) {
  low_level_active = true;
  command_timeout_active = false;
}

handoff : activate_low_level (λ x. x) words one_joint (ok tt) (bridge_state false) ≡ ok handed_over
unfolding activate_low_level require
handoff = refl

abbrev stopped : CommandState ℕ
stopped = record handed_over { stop_requested = true }

Steps-IsOrdered_example :
    IsOrdered (λ x. x) words one_joint (close_bridge (λ x. x) words 10 one_joint stopped)
Steps-IsOrdered_example =
    Steps-IsOrdered one_array one_array-IsYaml value value (λ x. x) words one_joint
      (bridge_state false) (close_bridge (λ x. x) words 10 one_joint stopped)
      one_joint-IsCommandConfig refl refl refl
      (next (next (next done (activate (ok tt) refl handoff)) stop) (close 10))

abbrev fresh_samples : Samples
fresh_samples = record {
  ticks = ticking 1 4;
  have_mode_machine = false;
  mode_machine = 0;
  have_lowstate = false;
  callback_count = 0;
  read_count = 0;
  crc_error_count = 0;
  pending_state_snapshot = none;
  state_sender_stop = false;
  overwrite_count = 0;
  drop_count = 0;
  sent = [];
}

abbrev sample : LowState
sample = record { tick = 4; mode_machine = 5; body = []; crc = 4294967295 }

SampleSteps-IsSound_example :
    IsSound
      (take_snapshot (on_lowstate StatePublishMode.lowstate_tick 10 (some sample) fresh_samples))
SampleSteps-IsSound_example =
    SampleSteps-IsSound StatePublishMode.lowstate_tick 10 fresh_samples
      (take_snapshot (on_lowstate StatePublishMode.lowstate_tick 10 (some sample) fresh_samples))
      refl refl (then_step (then_step no_step (callback (some sample))) send)

receive_batch-Taken_example :
    Returns
      (Taken sum load_bytes
        (record { bytes = datagram; recv_time = 6 })
        (record { packets_received = 9; packets_decoded = 4; decode_errors = 0 }))
      (receive_batch sum load_bytes
        (record { bytes = 5 ∷ []; recv_time = 3 } ∷ record { bytes = datagram; recv_time = 6 } ∷ [])
        (record { packets_received = 7; packets_decoded = 4; decode_errors = 0 }))
receive_batch-Taken_example =
    receive_batch-Taken sum load_bytes (record { bytes = 5 ∷ []; recv_time = 3 } ∷ [])
      (record { bytes = datagram; recv_time = 6 })
      (record { packets_received = 7; packets_decoded = 4; decode_errors = 0 }) (omega arith)
      (omega arith) (λ text. returned tt)
