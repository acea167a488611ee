-- ===== src/Bridge/Feedback/Queue.antt =====
-- The feedback queue of g1_udp_bridge.cpp (`RobotFeedback::enqueue`) against its contract: it holds the
-- last eight events worth showing, in order.
use grit_deploy_onboard_g.Prelude.{
  append_assoc, ℕ, zero, suc, ◌+◌, ◌-◌, ◌≤◌, ◌≡◌, refl, ap, sym, ◌∙◌, arith, Bool, true, false,
  List, [], ◌∷◌, ◌++◌, length, drop, leb, leb→le, if◌then◌else◌, length-append, length-drop,
  Bool-cases, inl, inr, drop_add,
}
use grit_deploy_onboard_g.Bridge.Feedback.{
  FeedbackEvent, RobotFeedback, max_queued_feedback, clean_event, is_empty, push_event, enqueue,
}

-- The events worth showing.
unfoldable pub accepted : Bool → List FeedbackEvent → List FeedbackEvent
accepted voice [] = []
accepted voice (event ∷ events) =
    let cleaned = clean_event voice event in
    let rest = accepted voice events in if is_empty cleaned then rest else cleaned ∷ rest

unfoldable pub enqueue_all : List FeedbackEvent → RobotFeedback → RobotFeedback
enqueue_all [] f = f
enqueue_all (event ∷ events) f = enqueue_all events (enqueue event f)

abbrev pub keep_last {ℓ} : {A : Type ℓ} → ℕ → List A → List A
keep_last n xs = drop (length xs - n) xs

drop-append_short {ℓ} :
    {A : Type ℓ} (n : ℕ) (xs ys : List A) → n ≤ length xs → drop n (xs ++ ys) ≡ drop n xs ++ ys
drop-append_short zero xs ys h = refl
drop-append_short (suc n) [] ys h = absurd (omega arith)
drop-append_short (suc n) (x ∷ xs) ys h = drop-append_short n xs ys (omega arith)

append_nil {ℓ} : {A : Type ℓ} (xs : List A) → xs ++ [] ≡ xs
append_nil [] = refl
append_nil (x ∷ xs) = ap (λ r. x ∷ r) (append_nil xs)

push_event-keep_last :
    (event : FeedbackEvent) (queue : List FeedbackEvent)
    → length queue ≤ max_queued_feedback
    → push_event event queue ≡ keep_last max_queued_feedback (queue ++ (event ∷ []))
unfolding push_event
push_event-keep_last event queue h =
    let e = length-append queue (event ∷ []) in
    elim (Bool-cases (leb max_queued_feedback (length queue))) [
      | inl full ↦
          let le = leb→le _ _ full in
          let k : length (queue ++ (event ∷ [])) - 8 ≡ 1 = omega (arith, e) in
          rw (full, k) (sym (drop-append_short 1 queue (event ∷ []) (omega arith)))
      | inr room ↦
          let k : length (queue ++ (event ∷ [])) - 8 ≡ 0 = ground (arith, e) in rw (room, k) refl
    ]

-- The queue never holds more than eight events.
length-push_event :
    (event : FeedbackEvent) (queue : List FeedbackEvent)
    → length queue ≤ max_queued_feedback
    → length (push_event event queue) ≤ max_queued_feedback
length-push_event event queue h =
    rw (push_event-keep_last event queue h)
      (omega (arith, length-drop (length (queue ++ (event ∷ [])) - 8) (queue ++ (event ∷ []))))

-- Keeping the last `n` of a list whose front was cut to its last `n` before.
keep_last-append :
    (n : ℕ) (xs ys : List FeedbackEvent)
    → keep_last n (keep_last n xs ++ ys) ≡ keep_last n (xs ++ ys)
keep_last-append n xs ys =
    let k = length xs - n in
    let joined = drop-append_short k xs ys (omega arith) in
    let e : k + (length (drop k (xs ++ ys)) - n) ≡ length (xs ++ ys) - n =
      omega (arith, length-drop k (xs ++ ys), length-append xs ys) in
    ap (keep_last n) (sym joined)
    ∙ sym (drop_add k (length (drop k (xs ++ ys)) - n) (xs ++ ys))
    ∙ ap (λ m. drop m (xs ++ ys)) e

enqueue-skips :
    (event : FeedbackEvent) (f : RobotFeedback)
    → is_empty (clean_event f.voice_enabled event) ≡ true
    → enqueue event f ≡ f
unfolding enqueue
enqueue-skips event f e = rw e refl

enqueue-pushes :
    (event : FeedbackEvent) (f : RobotFeedback)
    → is_empty (clean_event f.voice_enabled event) ≡ false
    → enqueue event f ≡ record f { queue = push_event (clean_event f.voice_enabled event) f.queue }
unfolding enqueue
enqueue-pushes event f e = rw e refl

enqueue_all-from :
    (events : List FeedbackEvent) (f : RobotFeedback)
    → length f.queue ≤ max_queued_feedback
    → (enqueue_all events f).queue
      ≡ keep_last max_queued_feedback (f.queue ++ accepted f.voice_enabled events)
unfolding enqueue_all accepted
enqueue_all-from [] f h =
    let k : length f.queue - 8 ≡ 0 = omega arith in
    sym (ap (keep_last 8) (append_nil f.queue) ∙ ap (λ m. drop m f.queue) k)
enqueue_all-from (event ∷ events) f h =
    let cleaned = clean_event f.voice_enabled event in
    let rest = accepted f.voice_enabled events in
    elim (Bool-cases (is_empty cleaned)) [
      | inl empty ↦ rw empty (
          ap (λ g. (enqueue_all events g).queue) (enqueue-skips event f empty)
          ∙ enqueue_all-from events f h)
      | inr shown ↦ rw shown (
          ap (λ g. (enqueue_all events g).queue) (enqueue-pushes event f shown)
          ∙ enqueue_all-from events (record f { queue = push_event cleaned f.queue })
              (length-push_event cleaned f.queue h)
          ∙ ap (λ q. keep_last 8 (q ++ rest)) (push_event-keep_last cleaned f.queue h)
          ∙ keep_last-append 8 (f.queue ++ (cleaned ∷ [])) rest
          ∙ ap (keep_last 8) (append_assoc f.queue (cleaned ∷ []) rest))
    ]

-- After any events, a queue that started empty holds the last eight of those worth showing, in order:
-- an event is worth showing if a speech of at most 128 bytes, voice being enabled, or a color is left of
-- it.
pub enqueue_all-keep_last :
    (events : List FeedbackEvent) (voice : Bool)
    → (enqueue_all events (record { voice_enabled = voice; queue = []; stop = false })).queue
      ≡ keep_last max_queued_feedback (accepted voice events)
enqueue_all-keep_last events voice =
    enqueue_all-from events (record { voice_enabled = voice; queue = []; stop = false })
      (omega arith)
