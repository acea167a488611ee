-- ===== src/Bridge/Ticks.antt =====
-- The schedule of state messages on the robot's tick: g1_sim2real/src/g1_udp_bridge.cpp,
-- `G1UdpBridge::update_lowstate_tick`, `tick_reached_or_passed` and `request_fatal_shutdown`. Ticks are
-- `uint32_t` values; counters are `uint64_t` values.
pub mod Schedule
pub mod Runs
use grit_deploy_onboard_g.Prelude.{
  ℕ, ◌+◌, ◌-◌, ◌%◌, ◌^◌, Bool, true, false, not, ◌||◌, ◌&&◌, Option, none, some, ltb, leb, ◌==◌,
  if◌then◌else◌,
}

pub data StatePublishMode : Type 0 where
  timer lowstate_tick : StatePublishMode

pub record TickDecision : Type 0 where
  pub unique : Bool
  pub publish_now : Bool

-- The members of `G1UdpBridge` that the schedule reads and writes.
pub record Ticks : Type 0 where
  pub last_lowstate_tick : Option ℕ
  pub next_state_tick : Option ℕ
  pub duplicate_tick_count : ℕ
  pub tick_gap_count : ℕ
  pub tick_missing_count : ℕ
  pub tick_reset_count : ℕ
  pub lowstate_count : ℕ
  pub unique_tick : ℕ
  pub fatal_shutdown_requested : Bool
  pub stop_requested : Bool

-- `counter.fetch_add(n)`.
abbrev pub fetch_add : ℕ → ℕ → ℕ
fetch_add counter n = (counter + n) % 2 ^ 64

-- `a + b` and `a - b` on `uint32_t`, for arguments below 2^32.
abbrev pub add_tick : ℕ → ℕ → ℕ
add_tick a b = (a + b) % 2 ^ 32

abbrev pub sub_tick : ℕ → ℕ → ℕ
sub_tick a b = (a + 2 ^ 32 - b) % 2 ^ 32

-- `static_cast<int32_t>(observed_tick - target_tick) >= 0`: the sign bit is clear.
unfoldable pub tick_reached_or_passed : ℕ → ℕ → Bool
tick_reached_or_passed observed_tick target_tick = ltb (sub_tick observed_tick target_tick) (2 ^ 31)

unfoldable pub request_fatal_shutdown : Ticks → Ticks
request_fatal_shutdown s = record s { fatal_shutdown_requested = true; stop_requested = true }

-- A gap in the ticks is counted on the tick schedule alone, a jump backwards always.
unfoldable pub count_gap : StatePublishMode → ℕ → Ticks → Ticks
count_gap StatePublishMode.timer delta s =
    if ltb 1 delta && leb (2 ^ 31) delta
    then record s { tick_reset_count = fetch_add s.tick_reset_count 1 }
    else s
count_gap StatePublishMode.lowstate_tick delta s =
    if ltb 1 delta
    then if ltb delta (2 ^ 31)
      then record s {
        tick_gap_count = fetch_add s.tick_gap_count 1;
        tick_missing_count = fetch_add s.tick_missing_count (delta - 1);
      }
      else record s { tick_reset_count = fetch_add s.tick_reset_count 1 }
    else s

-- A jump backwards starts the schedule again.
abbrev pub is_reset : ℕ → Bool
is_reset delta = ltb 1 delta && leb (2 ^ 31) delta

unfoldable pub note_tick : ℕ → Ticks → Ticks
note_tick observed_tick s = record s {
  last_lowstate_tick = some observed_tick;
  lowstate_count = fetch_add s.lowstate_count 1;
  unique_tick = fetch_add s.unique_tick 1;
}

unfoldable pub restart_schedule : ℕ → ℕ → Ticks → Ticks × TickDecision
restart_schedule state_decimation observed_tick s = (
  record s { next_state_tick = some (add_tick observed_tick state_decimation) },
  record { unique = true; publish_now = true },
)

-- A tick against the schedule `next`.
unfoldable pub meet_schedule : ℕ → ℕ → ℕ → Ticks → Ticks × TickDecision
meet_schedule state_decimation observed_tick next s =
    let fatal_sync_tick = add_tick next state_decimation in
    if not (tick_reached_or_passed observed_tick next)
    then (s, record { unique = true; publish_now = false })
    else if tick_reached_or_passed observed_tick fatal_sync_tick
    then (request_fatal_shutdown s, record { unique = true; publish_now = false })
    else (
      record s { next_state_tick = some (add_tick next state_decimation) },
      record { unique = true; publish_now = true },
    )

-- The part behind `decision.unique = true`, on the schedule that is set.
unfoldable pub decide : StatePublishMode → ℕ → ℕ → Bool → Option ℕ → Ticks → Ticks × TickDecision
decide StatePublishMode.timer dec observed_tick reset next s =
    (s, record { unique = true; publish_now = false })
decide StatePublishMode.lowstate_tick dec observed_tick reset none s =
    restart_schedule dec observed_tick s
decide StatePublishMode.lowstate_tick dec observed_tick reset (some next) s =
    if reset then restart_schedule dec observed_tick s else meet_schedule dec observed_tick next s

-- A tick after the tick `last`, or the first one.
unfoldable pub follow_tick : StatePublishMode → ℕ → ℕ → Option ℕ → Ticks → Ticks × TickDecision
follow_tick mode dec observed_tick none s =
    decide mode dec observed_tick false s.next_state_tick (note_tick observed_tick s)
follow_tick mode dec observed_tick (some last) s =
    let delta = sub_tick observed_tick last in
    if last == observed_tick
    then (
      record s { duplicate_tick_count = fetch_add s.duplicate_tick_count 1 },
      record { unique = false; publish_now = false },
    )
    else decide mode dec observed_tick (is_reset delta) s.next_state_tick
        (note_tick observed_tick (count_gap mode delta s))

unfoldable pub update_lowstate_tick : StatePublishMode → ℕ → ℕ → Ticks → Ticks × TickDecision
update_lowstate_tick mode state_decimation observed_tick s =
    follow_tick mode state_decimation observed_tick s.last_lowstate_tick s
