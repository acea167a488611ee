-- ===== src/Bridge/Samples.antt =====
-- The robot's state samples: g1_sim2real/src/g1_udp_bridge.cpp, `on_lowstate`, `poll_lowstate_reader`,
-- `process_lowstate_sample`, `enqueue_state_snapshot`, and the locked blocks of the sender thread.
pub mod Sound
use grit_deploy_onboard_g.Prelude.{
  ℕ, Bool, true, false, not, ◌||◌, ◌&&◌, Option, none, some, is_some, List, [], ◌∷◌, ◌++◌, ◌==◌,
  if◌then◌else◌,
}
use grit_deploy_onboard_g.Bridge.Checksum.{crc32_core}
use grit_deploy_onboard_g.Bridge.Ticks.{
  StatePublishMode, TickDecision, Ticks, fetch_add, update_lowstate_tick,
}

-- The SDK's `LowState_`: the fields that are read here, and its memory before the checksum, as
-- `uint32_t` words.
pub record LowState : Type 0 where
  pub tick : ℕ
  pub mode_machine : ℕ
  pub body : List ℕ
  pub crc : ℕ

-- The members of `G1UdpBridge` on the way of a sample; `sent` is what the sender thread has taken.
pub record Samples : Type 0 where
  pub ticks : Ticks
  pub have_mode_machine : Bool
  pub mode_machine : ℕ
  pub have_lowstate : Bool
  pub callback_count : ℕ
  pub read_count : ℕ
  pub crc_error_count : ℕ
  pub pending_state_snapshot : Option LowState
  pub state_sender_stop : Bool
  pub overwrite_count : ℕ
  pub drop_count : ℕ
  pub sent : List LowState

abbrev pub is_ending : Ticks → Bool
is_ending ticks = ticks.fatal_shutdown_requested || ticks.stop_requested

unfoldable pub has_valid_crc : LowState → Bool
has_valid_crc sample = sample.crc == crc32_core sample.body

-- A snapshot that has not been sent yet is overwritten.
unfoldable pub enqueue_state_snapshot : LowState → Samples → Samples
enqueue_state_snapshot sample s = if s.state_sender_stop then s else record s {
  pending_state_snapshot = some sample;
  overwrite_count =
      if is_some s.pending_state_snapshot then fetch_add s.overwrite_count 1 else s.overwrite_count;
}

-- The part behind `update_lowstate_tick`; the flag says whether the sample was a new one.
unfoldable pub use_decision : LowState → Bool → TickDecision → Samples → Samples × Bool
use_decision sample allow_tick_publish decision s =
    let known = record s { have_lowstate = true } in
    if not decision.unique
    then (s, false)
    else if allow_tick_publish && decision.publish_now
    then (enqueue_state_snapshot sample known, true)
    else (known, true)

unfoldable pub process_lowstate_sample :
    StatePublishMode → ℕ → LowState → Bool → Samples → Samples × Bool
process_lowstate_sample mode state_decimation sample allow_tick_publish s =
    let updated = update_lowstate_tick mode state_decimation sample.tick s.ticks in
    if is_ending s.ticks
    then (s, false)
    else if not (has_valid_crc sample)
    then (record s { crc_error_count = fetch_add s.crc_error_count 1 }, false)
    else use_decision sample allow_tick_publish updated.1 (record s {
      have_mode_machine = true;
      mode_machine = sample.mode_machine;
      ticks = updated.0;
    })

-- The callback of the subscriber; a null message is none.
unfoldable pub on_lowstate : StatePublishMode → ℕ → Option LowState → Samples → Samples
on_lowstate mode state_decimation none s = s
on_lowstate mode state_decimation (some sample) s =
    let counted = record s { callback_count = fetch_add s.callback_count 1 } in
    if is_ending s.ticks
    then s
    else (process_lowstate_sample mode state_decimation sample true counted).0

-- Reading the subscriber's latest message, if it has one.
unfoldable pub poll_lowstate_reader :
    StatePublishMode → ℕ → Option LowState → Bool → Samples → Samples × Bool
poll_lowstate_reader mode state_decimation none allow_publish s = (s, false)
poll_lowstate_reader mode state_decimation (some sample) allow_publish s =
    process_lowstate_sample mode state_decimation sample allow_publish
      (record s { read_count = fetch_add s.read_count 1 })

-- The locked block of `state_sender_tick_loop`: the snapshot is taken, if there is one.
unfoldable pub send_pending : Option LowState → Samples → Samples
send_pending none s = s
send_pending (some sample) s = record s {
  pending_state_snapshot = none;
  sent = s.sent ++ (sample ∷ []);
}

unfoldable pub take_snapshot : Samples → Samples
take_snapshot s = send_pending s.pending_state_snapshot s

-- The locked block of `stop_state_sender_thread`.
unfoldable pub stop_state_sender : Samples → Samples
stop_state_sender s = record s {
  state_sender_stop = true;
  pending_state_snapshot = none;
  drop_count = if is_some s.pending_state_snapshot then fetch_add s.drop_count 1 else s.drop_count;
}

-- The threads' steps on the tick schedule.
pub data SampleStep (mode : StatePublishMode) (state_decimation : ℕ)
    : Samples → Samples → Type 0 where
  callback :
      {s : Samples}
      → (message : Option LowState)
      → SampleStep mode state_decimation s (on_lowstate mode state_decimation message s)
  read :
      {s : Samples}
      → (message : Option LowState) → (allow : Bool)
      → SampleStep mode state_decimation s
          (poll_lowstate_reader mode state_decimation message allow s).0
  send : {s : Samples} → SampleStep mode state_decimation s (take_snapshot s)
  stop_sender : {s : Samples} → SampleStep mode state_decimation s (stop_state_sender s)

pub data SampleSteps (mode : StatePublishMode) (state_decimation : ℕ)
    : Samples → Samples → Type 0 where
  no_step : {s : Samples} → SampleSteps mode state_decimation s s
  then_step :
      {s t u : Samples}
      → SampleSteps mode state_decimation s t
      → SampleStep mode state_decimation t u
      → SampleSteps mode state_decimation s u
