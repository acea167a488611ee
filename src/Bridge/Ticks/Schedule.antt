-- ===== src/Bridge/Ticks/Schedule.antt =====
-- The tick schedule of g1_udp_bridge.cpp (`update_lowstate_tick`): when it publishes, when it gives up.
use mathlib.Core.Path.{subst}
use grit_deploy_onboard_g.Prelude.{
  ℕ, ◌+◌, ◌-◌, ◌^◌, ◌≤◌, ◌<◌, ◌≡◌, refl, ap, sym, ◌∙◌, arith, true, false, some, leb, ◌==◌,
  Bool-cases, inl, inr, leb→le,
}
use grit_deploy_onboard_g.Bridge.Ticks.{
  StatePublishMode, TickDecision, Ticks, add_tick, sub_tick, tick_reached_or_passed,
  request_fatal_shutdown, count_gap, is_reset, note_tick, restart_schedule, meet_schedule, decide,
  follow_tick, update_lowstate_tick,
}

-- A running schedule: the last tick is `last`, and the next state is due in `due` ticks.
pub record IsScheduled (dec last due : ℕ) (s : Ticks) : Type 0 where
  pub last_eq : s.last_lowstate_tick ≡ some last
  pub next_eq : s.next_state_tick ≡ some (add_tick last due)
  pub tick : last < 2 ^ 32
  pub soon : due ≤ dec
  pub later : 0 < due

-- What the tick `delta` ticks after `last` does to a schedule that is due in `due` ticks.
pub data Outcome (dec last due delta : ℕ) (s : Ticks) : Ticks × TickDecision → Type 0 where
  waits :
      {t : Ticks}
      → delta < due
      → IsScheduled dec (add_tick last delta) (due - delta) t
      → t.fatal_shutdown_requested ≡ s.fatal_shutdown_requested
      → Outcome dec last due delta s (t, record { unique = true; publish_now = false })
  publishes :
      {t : Ticks}
      → due ≤ delta
      → delta < due + dec
      → delta < 2 ^ 31
      → IsScheduled dec (add_tick last delta) (due + dec - delta) t
      → t.fatal_shutdown_requested ≡ s.fatal_shutdown_requested
      → Outcome dec last due delta s (t, record { unique = true; publish_now = true })
  gives_up :
      {t : Ticks}
      → due + dec ≤ delta
      → delta < 2 ^ 31
      → t.fatal_shutdown_requested ≡ true
      → t.stop_requested ≡ true
      → Outcome dec last due delta s (t, record { unique = true; publish_now = false })
  restarts :
      {t : Ticks}
      → 2 ^ 31 ≤ delta
      → IsScheduled dec (add_tick last delta) dec t
      → t.fatal_shutdown_requested ≡ s.fatal_shutdown_requested
      → Outcome dec last due delta s (t, record { unique = true; publish_now = true })

pub sub_add :
    (last delta : ℕ) → last < 2 ^ 32 → delta < 2 ^ 32 → sub_tick (add_tick last delta) last ≡ delta
sub_add last delta hl hd = omega arith

pub moved :
    (last delta : ℕ)
    → last < 2 ^ 32
    → delta < 2 ^ 32
    → 0 < delta
    → (last == add_tick last delta) ≡ false
moved last delta hl hd h = ground arith

-- The signed comparison with a target that is at most 2^31 ticks off.
reached :
    (last a delta : ℕ)
    → last < 2 ^ 32
    → a ≤ 2 ^ 31
    → delta < 2 ^ 31
    → tick_reached_or_passed (add_tick last delta) (add_tick last a) ≡ leb a delta
unfolding tick_reached_or_passed
reached last a delta hl ha hd = ground arith

reached_fatal :
    (last due dec delta : ℕ)
    → last < 2 ^ 32
    → due ≤ dec
    → dec < 2 ^ 31
    → due ≤ delta
    → delta < 2 ^ 31
    → tick_reached_or_passed (add_tick last delta) (add_tick (add_tick last due) dec)
      ≡ leb (due + dec) delta
unfolding tick_reached_or_passed
reached_fatal last due dec delta hl h1 h2 h3 h4 = ground arith

add_add : (last a b : ℕ) → add_tick (add_tick last a) b ≡ add_tick last (a + b)
add_add last a b = omega arith

regroup :
    (last a delta : ℕ) → delta ≤ a → add_tick last a ≡ add_tick (add_tick last delta) (a - delta)
regroup last a delta h = omega arith

count_gap-fatal :
    (mode : StatePublishMode) (delta : ℕ) (s : Ticks)
    → (count_gap mode delta s).fatal_shutdown_requested ≡ s.fatal_shutdown_requested
unfolding count_gap
count_gap-fatal StatePublishMode.timer delta s = ground arith
count_gap-fatal StatePublishMode.lowstate_tick delta s = ground arith

count_gap-next :
    (mode : StatePublishMode) (delta : ℕ) (s : Ticks)
    → (count_gap mode delta s).next_state_tick ≡ s.next_state_tick
unfolding count_gap
count_gap-next StatePublishMode.timer delta s = ground arith
count_gap-next StatePublishMode.lowstate_tick delta s = ground arith

-- The schedule met by a tick less than 2^31 ticks after the last.
meet_schedule-Outcome :
    (dec last due delta : ℕ) (s t : Ticks)
    → dec < 2 ^ 31
    → delta < 2 ^ 31
    → IsScheduled dec last due s
    → t.last_lowstate_tick ≡ some (add_tick last delta)
    → t.next_state_tick ≡ s.next_state_tick
    → t.fatal_shutdown_requested ≡ s.fatal_shutdown_requested
    → Outcome dec last due delta s (meet_schedule dec (add_tick last delta) (add_tick last due) t)
unfolding meet_schedule request_fatal_shutdown
meet_schedule-Outcome dec last due delta s t hdec hd v hl hn hf =
    rw (reached last due delta v.tick (omega arith) hd) (elim (Bool-cases (leb due delta)) [
      | inl due_now ↦
          let le = leb→le due delta due_now in
          rw (due_now, reached_fatal last due dec delta v.tick v.soon hdec le hd)
            (elim (Bool-cases (leb (due + dec) delta)) [
              | inl too_late ↦ rw too_late (gives_up (leb→le _ _ too_late) hd refl refl)
              | inr in_time ↦
                  let lt : delta < due + dec = ground arith in
                  rw in_time (
                    publishes le lt hd
                      (record {
                        last_eq = hl;
                        next_eq =
                            ap some
                              (add_add last due dec ∙ regroup last (due + dec) delta (omega arith));
                        tick = omega arith;
                        soon = omega arith;
                        later = omega arith;
                      })
                      hf)
            ])
      | inr early ↦
          let lt : delta < due = ground arith in
          rw early (
            waits lt
              (record {
                last_eq = hl;
                next_eq = hn ∙ v.next_eq ∙ ap some (regroup last due delta (omega arith));
                tick = omega arith;
                soon = omega arith;
                later = omega arith;
              })
              hf)
    ])

-- A tick behind a jump backwards starts the schedule again.
restart_schedule-Outcome :
    (dec last due delta : ℕ) (s t : Ticks)
    → 2 ^ 31 ≤ delta
    → IsScheduled dec last due s
    → t.last_lowstate_tick ≡ some (add_tick last delta)
    → t.fatal_shutdown_requested ≡ s.fatal_shutdown_requested
    → Outcome dec last due delta s (restart_schedule dec (add_tick last delta) t)
unfolding restart_schedule
restart_schedule-Outcome dec last due delta s t far v hl hf =
    restarts far
      (record {
        last_eq = hl;
        next_eq = refl;
        tick = omega arith;
        soon = omega arith;
        later = omega (arith, v);
      })
      hf

decide-Outcome :
    (dec last due delta : ℕ) (s t : Ticks)
    → dec < 2 ^ 31
    → IsScheduled dec last due s
    → t.last_lowstate_tick ≡ some (add_tick last delta)
    → t.next_state_tick ≡ s.next_state_tick
    → t.fatal_shutdown_requested ≡ s.fatal_shutdown_requested
    → Outcome dec last due delta s (
        decide StatePublishMode.lowstate_tick dec
          (add_tick last delta)
          (is_reset delta)
          (some (add_tick last due))
          t)
unfolding decide
decide-Outcome dec last due delta s t hdec v hl hn hf = elim (Bool-cases (is_reset delta)) [
  | inl back ↦ rw back (restart_schedule-Outcome dec last due delta s t (ground arith) v hl hf)
  | inr ahead ↦
      rw ahead (meet_schedule-Outcome dec last due delta s t hdec (ground arith) v hl hn hf)
]

follow_tick-Outcome :
    (dec last due delta : ℕ) (s : Ticks)
    → dec < 2 ^ 31
    → delta < 2 ^ 32
    → 0 < delta
    → IsScheduled dec last due s
    → Outcome dec last due delta s
        (follow_tick StatePublishMode.lowstate_tick dec (add_tick last delta) (some last) s)
unfolding follow_tick note_tick
follow_tick-Outcome dec last due delta s hdec hd moves v =
    let counted = count_gap StatePublishMode.lowstate_tick delta s in
    let fatal = count_gap-fatal StatePublishMode.lowstate_tick delta s in
    let next = count_gap-next StatePublishMode.lowstate_tick delta s in
    rw (moved last delta v.tick hd moves, sub_add last delta v.tick hd)
      (subst
        (λ o. Outcome dec last due delta s (
          decide StatePublishMode.lowstate_tick dec (add_tick last delta) (is_reset delta) o
            (note_tick (add_tick last delta) counted)))
        (sym v.next_eq)
        (decide-Outcome dec last due delta s (note_tick (add_tick last delta) counted) hdec v refl
          next fatal))

-- On a running schedule, with a decimation below 2^31, a new tick `delta` ticks after the last one has
-- the outcome that `delta` decides: before the due tick nothing is published; from the due tick on and
-- less than `dec` ticks late the state is published and the schedule moves on by `dec` from the tick that
-- was due; later than that the bridge asks for its shutdown and publishes nothing; a jump backwards, of
-- 2^31 or more modulo 2^32, publishes and starts the schedule again. The schedule stays well formed
-- wherever there is no shutdown.
pub update_lowstate_tick-Outcome :
    (dec last due delta : ℕ) (s : Ticks)
    → dec < 2 ^ 31
    → delta < 2 ^ 32
    → 0 < delta
    → IsScheduled dec last due s
    → Outcome dec last due delta s
        (update_lowstate_tick StatePublishMode.lowstate_tick dec (add_tick last delta) s)
unfolding update_lowstate_tick
update_lowstate_tick-Outcome dec last due delta s hdec hd moves v =
    subst
      (λ o.
        Outcome dec last due delta s
          (follow_tick StatePublishMode.lowstate_tick dec (add_tick last delta) o s))
      (sym v.last_eq) (follow_tick-Outcome dec last due delta s hdec hd moves v)
