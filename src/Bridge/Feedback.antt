-- ===== src/Bridge/Feedback.antt =====
-- Voice and light: g1_sim2real/src/g1_udp_bridge.cpp, `FeedbackEvent`, `mode_led_color` and
-- `RobotFeedback`. The queue is shared under a mutex, so each locked block is one step; the calls of the
-- robot's audio client are recorded as actions.
pub mod Queue
use Prim.Native.String.{String, len}
use grit_deploy_onboard_g.Prelude.{
  ℕ, Bool, true, false, not, ◌||◌, ◌&&◌, Option, none, some, is_some, List, [], ◌∷◌, ◌++◌, length,
  drop, ltb, leb, ◌==◌, if◌then◌else◌,
}
use grit_deploy_onboard_g.Yaml.{same_text}

pub record Rgb : Type 0 where
  pub red : ℕ
  pub green : ℕ
  pub blue : ℕ

pub record FeedbackEvent : Type 0 where
  pub speech : String
  pub led_rgb : Option Rgb

unfoldable pub mode_led_color : String → Option Rgb
mode_led_color mode =
    if same_text mode "loco"
    then some (record { red = 0; green = 255; blue = 0 })
    else if same_text mode "vr"
    then some (record { red = 0; green = 0; blue = 255 })
    else if same_text mode "npz"
    then some (record { red = 128; green = 0; blue = 255 })
    else none

pub record RobotFeedback : Type 0 where
  pub voice_enabled : Bool
  pub queue : List FeedbackEvent
  pub stop : Bool

abbrev pub max_queued_feedback : ℕ
max_queued_feedback = 8

abbrev pub max_speech : ℕ
max_speech = 128

-- The speech that is kept: none without voice, none above 128 bytes.
unfoldable pub clean_event : Bool → FeedbackEvent → FeedbackEvent
clean_event voice_enabled event =
    if not voice_enabled || ltb max_speech (len event.speech)
    then record event { speech = "" }
    else event

-- `event.speech.empty() && !event.led_rgb.has_value()`.
unfoldable pub is_empty : FeedbackEvent → Bool
is_empty event = (len event.speech == 0) && not (is_some event.led_rgb)

-- A full queue drops its oldest event.
unfoldable pub push_event : FeedbackEvent → List FeedbackEvent → List FeedbackEvent
push_event event queue =
    (if leb max_queued_feedback (length queue) then drop 1 queue else queue) ++ (event ∷ [])

unfoldable pub enqueue : FeedbackEvent → RobotFeedback → RobotFeedback
enqueue event f =
    let cleaned = clean_event f.voice_enabled event in
    if is_empty cleaned then f else record f { queue = push_event cleaned f.queue }

-- The calls of the audio client: `TtsMaker` and `LedControl`.
pub data Action : Type 0 where
  speak : String → Action
  set_led : Rgb → Action

-- `close`: the worker is stopped, what is queued is dropped, and the light goes out.
unfoldable pub close_feedback : RobotFeedback → RobotFeedback × List Action
close_feedback f = if f.stop then (f, []) else (
  record f { stop = true; queue = [] },
  set_led (record { red = 0; green = 0; blue = 0 }) ∷ [],
)

-- The color that a round of the worker shows: the event's, or else the one before.
abbrev pub or_else {ℓ} : {A : Type ℓ} → Option A → Option A → Option A
or_else none b = b
or_else (some a) b = some a

abbrev pub show_led : Option Rgb → List Action
show_led none = []
show_led (some rgb) = set_led rgb ∷ []

-- One round of the worker `run` that is not stopped, on what it takes from the queue: the color that
-- is active after it, the queue that is left and the calls.
unfoldable pub run_round :
    Option Rgb → List FeedbackEvent → Option Rgb × List FeedbackEvent × List Action
run_round active [] = (active, [], show_led active)
run_round active (event ∷ queue) =
    let color = or_else event.led_rgb active in
    (
      color,
      queue,
      (if len event.speech == 0 then [] else speak event.speech ∷ []) ++ show_led color,
    )
