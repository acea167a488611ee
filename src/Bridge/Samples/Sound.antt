-- ===== src/Bridge/Samples/Sound.antt =====
-- What the bridge sends on to the policy (g1_udp_bridge.cpp, `process_lowstate_sample` and the sender).
use mathlib.Core.Path.{subst}
use grit_deploy_onboard_g.Prelude.{
  ℕ, ◌≡◌, refl, sym, arith, Bool, true, not, ◌&&◌, if-split, Option, none, some, [], ◌∷◌, All,
  All-append,
}
use grit_deploy_onboard_g.Bridge.Ticks.{StatePublishMode, TickDecision}
use grit_deploy_onboard_g.Bridge.Samples.{
  LowState, Samples, is_ending, has_valid_crc, enqueue_state_snapshot, use_decision,
  process_lowstate_sample, on_lowstate, poll_lowstate_reader, send_pending, take_snapshot,
  stop_state_sender, SampleStep, callback, read, send, stop_sender, SampleSteps, no_step, then_step,
}

abbrev pub ValidSome : Option LowState → Type 0
ValidSome none = Unit {0}
ValidSome (some sample) = has_valid_crc sample ≡ true

-- What waits and what was sent has passed the checksum, and nothing waits once the sender is stopped.
pub record IsSound (s : Samples) : Type 0 where
  pub pending : ValidSome s.pending_state_snapshot
  pub sent : All (λ sample. has_valid_crc sample ≡ true) s.sent
  pub stopped : s.state_sender_stop ≡ true → s.pending_state_snapshot ≡ none

enqueue-IsSound :
    (sample : LowState) (s : Samples)
    → has_valid_crc sample ≡ true
    → IsSound s
    → IsSound (enqueue_state_snapshot sample s)
unfolding enqueue_state_snapshot
enqueue-IsSound sample s valid v =
    if-split IsSound s.state_sender_stop (λ _. v)
      λ on. record { pending = valid; sent = v.sent; stopped = λ h. cc }

use_decision-IsSound :
    (sample : LowState) (allow : Bool) (decision : TickDecision) (s : Samples)
    → has_valid_crc sample ≡ true
    → IsSound s
    → IsSound (use_decision sample allow decision s).0
unfolding use_decision
use_decision-IsSound sample allow decision s valid v =
    let known : IsSound (record s { have_lowstate = true }) = record {
      pending = v.pending;
      sent = v.sent;
      stopped = v.stopped;
    } in
    if-split (λ (r : Samples × Bool). IsSound r.0) (not decision.unique) (λ _. v)
      λ _.
        if-split (λ (r : Samples × Bool). IsSound r.0) (allow && decision.publish_now)
          (λ _. enqueue-IsSound sample _ valid known) λ _. known

process_lowstate_sample-IsSound :
    (mode : StatePublishMode) (dec : ℕ) (sample : LowState) (allow : Bool) (s : Samples)
    → IsSound s
    → IsSound (process_lowstate_sample mode dec sample allow s).0
unfolding process_lowstate_sample
process_lowstate_sample-IsSound mode dec sample allow s v =
    if-split (λ (r : Samples × Bool). IsSound r.0) (is_ending s.ticks) (λ _. v)
      λ _.
        if-split (λ (r : Samples × Bool). IsSound r.0) (not (has_valid_crc sample))
          (λ _. record { pending = v.pending; sent = v.sent; stopped = v.stopped })
          λ good.
            use_decision-IsSound sample allow _ _ (ground arith)
              (record { pending = v.pending; sent = v.sent; stopped = v.stopped })

send_pending-IsSound :
    (o : Option LowState) (s : Samples) → ValidSome o → IsSound s → IsSound (send_pending o s)
unfolding send_pending
send_pending-IsSound none s valid v = v
send_pending-IsSound (some sample) s valid v = record {
  pending = tt;
  sent = All-append _ s.sent (sample ∷ []) v.sent (valid, tt);
  stopped = λ _. refl;
}

SampleStep-IsSound :
    (mode : StatePublishMode) (dec : ℕ) (s t : Samples)
    → IsSound s
    → SampleStep mode dec s t
    → IsSound t
unfolding on_lowstate poll_lowstate_reader take_snapshot stop_state_sender
SampleStep-IsSound mode dec s t v (callback none) = v
SampleStep-IsSound mode dec s t v (callback (some sample)) =
    if-split IsSound (is_ending s.ticks) (λ _. v)
      λ _.
        process_lowstate_sample-IsSound mode dec sample true _
          (record { pending = v.pending; sent = v.sent; stopped = v.stopped })
SampleStep-IsSound mode dec s t v (read none allow) = v
SampleStep-IsSound mode dec s t v (read (some sample) allow) =
    process_lowstate_sample-IsSound mode dec sample allow _
      (record { pending = v.pending; sent = v.sent; stopped = v.stopped })
SampleStep-IsSound mode dec s t v send = send_pending-IsSound s.pending_state_snapshot s v.pending v
SampleStep-IsSound mode dec s t v stop_sender = record {
  pending = tt;
  sent = v.sent;
  stopped = λ _. refl;
}

-- However the robot's callbacks, the reader, the sender thread and its stop interleave, from a bridge
-- with nothing pending and nothing sent: every state that the sender takes, and the one that waits,
-- passed the robot's checksum, and nothing waits once the sender is stopped.
pub SampleSteps-IsSound :
    (mode : StatePublishMode) (dec : ℕ) (s t : Samples)
    → s.pending_state_snapshot ≡ none
    → s.sent ≡ []
    → SampleSteps mode dec s t
    → IsSound t
SampleSteps-IsSound mode dec s t e f no_step = record {
  pending = subst ValidSome (sym e) tt;
  sent = subst (All _) (sym f) tt;
  stopped = λ _. e;
}
SampleSteps-IsSound mode dec s t e f (then_step rest step) =
    SampleStep-IsSound mode dec _ t (SampleSteps-IsSound mode dec s _ e f rest) step
