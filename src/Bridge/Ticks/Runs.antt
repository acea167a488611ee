-- ===== src/Bridge/Ticks/Runs.antt =====
-- Runs of the tick schedule of g1_udp_bridge.cpp (`update_lowstate_tick`): consecutive ticks, and a
-- decimation that the signed comparison cannot hold.
use mathlib.Core.Path.{subst}
use grit_deploy_onboard_g.Prelude.{
  ℕ, zero, suc, ◌+◌, ◌-◌, ◌*◌, ◌^◌, ◌≤◌, ◌<◌, ◌≡◌, refl, sym, ◌∙◌, arith, true, false, ◌⊎◌, inl,
  inr, some, if◌then◌else◌, Bool-cases,
}
use grit_deploy_onboard_g.Bridge.Ticks.{
  StatePublishMode, TickDecision, Ticks, add_tick, tick_reached_or_passed, request_fatal_shutdown,
  meet_schedule, decide, follow_tick, update_lowstate_tick, count_gap, note_tick,
}
use grit_deploy_onboard_g.Bridge.Ticks.Schedule.{
  IsScheduled, Outcome, waits, publishes, gives_up, restarts, moved, sub_add,
  update_lowstate_tick-Outcome,
}

-- The bridge's state and the number of published states after the `n` ticks that follow `last`.
unfoldable pub count_published : ℕ → ℕ → ℕ → Ticks → Ticks × ℕ
count_published dec last zero s = (s, 0)
count_published dec last (suc n) s =
    let r = update_lowstate_tick StatePublishMode.lowstate_tick dec (add_tick last 1) s in
    let rest = count_published dec (add_tick last 1) n r.0 in
    (rest.0, if r.1.publish_now then suc rest.1 else rest.1)

suc_mul : (c d : ℕ) → suc c * d ≡ c * d + d
suc_mul c d = grind arith

-- The published states are the due ones: the count is (n + dec - due) / dec, rounded down.
pub record IsDue (dec due n : ℕ) (r : Ticks × ℕ) : Type 0 where
  pub running : r.0.fatal_shutdown_requested ≡ false
  pub at_least : r.1 * dec ≤ n + (dec - due)
  pub at_most : n + (dec - due) < r.1 * dec + dec

count_next :
    (n dec last due : ℕ) (s : Ticks) {r : Ticks × TickDecision}
    → IsScheduled dec last due s
    → s.fatal_shutdown_requested ≡ false
    → Outcome dec last due 1 s r
    → ((due' : ℕ) (t : Ticks)
        → IsScheduled dec (add_tick last 1) due' t
        → t.fatal_shutdown_requested ≡ false
        → IsDue dec due' n (count_published dec (add_tick last 1) n t))
    → let rest = count_published dec (add_tick last 1) n r.0 in
      IsDue dec due (suc n) (rest.0, if r.1.publish_now then suc rest.1 else rest.1)
count_next n dec last due s v calm (waits {t} lt w same) ih =
    let h = ih (due - 1) t w (same ∙ calm) in
    record { running = h.running; at_least = omega (arith, h, v); at_most = omega (arith, h, v) }
count_next n dec last due s v calm (publishes {t} le lt small w same) ih =
    let h = ih (due + dec - 1) t w (same ∙ calm) in
    let e = suc_mul (count_published dec (add_tick last 1) n t).1 dec in
    record {
      running = h.running;
      at_least = omega (arith, h, v, e);
      at_most = omega (arith, h, v, e);
    }
count_next n dec last due s v calm (gives_up late small fatal stop) ih = absurd (omega (arith, v))
count_next n dec last due s v calm (restarts far w same) ih = absurd (omega arith)

-- While every tick arrives, the bridge never gives up, and among any `n` ticks it publishes exactly
-- the due ones: with `due` ticks to the next, the count is (n + dec - due) / dec, rounded down. The
-- decimation is below 2^31.
pub count_published-IsDue :
    (n dec last due : ℕ) (s : Ticks)
    → dec < 2 ^ 31
    → IsScheduled dec last due s
    → s.fatal_shutdown_requested ≡ false
    → IsDue dec due n (count_published dec last n s)
unfolding count_published
count_published-IsDue zero dec last due s hdec v calm = record {
  running = calm;
  at_least = omega arith;
  at_most = omega (arith, v);
}
count_published-IsDue (suc n) dec last due s hdec v calm =
    count_next n dec last due s v calm
      (update_lowstate_tick-Outcome dec last due 1 s hdec (omega arith) (omega arith) v)
      λ due' t w calm'. count_published-IsDue n dec (add_tick last 1) due' t hdec w calm'

-- The tick publishes, or asks for the shutdown.
abbrev pub Acts : Ticks × TickDecision → Type 0
Acts r = (r.1.publish_now ≡ true) ⊎ (r.0.fatal_shutdown_requested ≡ true)

passed_early :
    (dec last : ℕ)
    → 2 ^ 31 + 1 < dec
    → dec < 2 ^ 32
    → last < 2 ^ 32
    → tick_reached_or_passed (add_tick last 1) (add_tick last dec) ≡ true
unfolding tick_reached_or_passed
passed_early dec last h1 h2 h3 = ground arith

meet_schedule-Acts :
    (dec last : ℕ) (t : Ticks)
    → 2 ^ 31 + 1 < dec
    → dec < 2 ^ 32
    → last < 2 ^ 32
    → Acts (meet_schedule dec (add_tick last 1) (add_tick last dec) t)
unfolding meet_schedule request_fatal_shutdown
meet_schedule-Acts dec last t h1 h2 h3 =
    let fatal = tick_reached_or_passed (add_tick last 1) (add_tick (add_tick last dec) dec) in
    rw (passed_early dec last h1 h2 h3)
      (elim (Bool-cases fatal) [ inl late ↦ rw late (inr refl) | inr near ↦ rw near (inl refl) ])

follow_tick-Acts :
    (dec last : ℕ) (s : Ticks)
    → 2 ^ 31 + 1 < dec
    → dec < 2 ^ 32
    → last < 2 ^ 32
    → s.next_state_tick ≡ some (add_tick last dec)
    → Acts (follow_tick StatePublishMode.lowstate_tick dec (add_tick last 1) (some last) s)
unfolding follow_tick note_tick decide
follow_tick-Acts dec last s h1 h2 h3 e =
    rw (moved last 1 h3 (omega arith) (omega arith), sub_add last 1 h3 (omega arith))
      (subst
        (λ o. Acts (
          decide StatePublishMode.lowstate_tick dec (add_tick last 1) false o
            (note_tick (add_tick last 1) (count_gap StatePublishMode.lowstate_tick 1 s))))
        (sym e) (meet_schedule-Acts dec last _ h1 h2 h3))

-- `load_config` accepts decimations up to 2^32 - 1, but above 2^31 + 1 the signed comparison takes
-- the due tick for one that has passed: on a schedule that is due in a whole decimation, the very next
-- tick publishes or asks for the shutdown.
pub large_decimation-Acts :
    (dec last : ℕ) (s : Ticks)
    → 2 ^ 31 + 1 < dec
    → dec < 2 ^ 32
    → IsScheduled dec last dec s
    → Acts (update_lowstate_tick StatePublishMode.lowstate_tick dec (add_tick last 1) s)
unfolding update_lowstate_tick
large_decimation-Acts dec last s h1 h2 v =
    subst (λ o. Acts (follow_tick StatePublishMode.lowstate_tick dec (add_tick last 1) o s))
      (sym v.last_eq) (follow_tick-Acts dec last s h1 h2 v.tick v.next_eq)
