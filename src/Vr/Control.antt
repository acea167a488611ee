-- ===== src/Vr/Control.antt =====
-- `poll_operator_input` (g1_sim2real/src/vr_motion_client.cpp): the operator's buttons and sticks.
use grit_deploy_onboard_g.Prelude.{
  ℕ, ◌+◌, ◌-◌, ◌%◌, ◌^◌, Bool, true, false, not, ◌&&◌, ◌||◌, Option, none, some, List, [], ◌∷◌,
  length, ltb, leb, ◌==◌, if◌then◌else◌, Result, ok, err, runtime_error, out_of_bounds, diverged,
}
use grit_deploy_onboard_g.Stateful.{Stateful, ◌>>=◌, ◌>>◌, give, modify, call}
use grit_deploy_onboard_g.Floats.{Floats}
use grit_deploy_onboard_g.Yaml.{Yaml, YamlFloats}
use grit_deploy_onboard_g.Loop.{VrOperatorInput}
use grit_deploy_onboard_g.Loop.Polling.{no_input}
use grit_deploy_onboard_g.Vr.{VrClient, yaml_bool, yaml_axis}

-- What `receive_part` gives: an exception, or a message with whether more parts follow and the clock
-- after it. Where no more messages wait, the list ends.
pub data ControlPart : Type 0 where
  failed : ControlPart
  part : List ℕ → Bool → ℕ → ControlPart

-- The client, and the input of this poll.
pub record Polling {ℓ} (F : Type ℓ) : Type ℓ where
  pub client : VrClient F
  pub input : VrOperatorInput F

-- `catch (const std::exception &)`: a message that is not understood is ignored from there on.
abbrev pub ignored {ℓ} : {S : Type ℓ} → S × Result (Unit {0}) → S × Result (Unit {0})
ignored (s, ok u) = (s, ok u)
ignored (s, err (runtime_error message)) = (s, ok tt)
ignored (s, err out_of_bounds) = (s, err out_of_bounds)
ignored (s, err diverged) = (s, err diverged)

module _ {ℓ} {F : Type ℓ} where
  -- A button that is pressed and was not.
  unfoldable pub note_pressed : Bool → Bool → Bool → Bool → Polling F → Polling F
  note_pressed x a y b p = record {
    client = record p.client { previous_x = x; previous_a = a; previous_b = b; previous_y = y };
    input = record p.input {
      activate_or_default = p.input.activate_or_default || (x && not p.client.previous_x);
      start_tracking = p.input.start_tracking || (a && not p.client.previous_a);
      toggle_mode = p.input.toggle_mode || (b && not p.client.previous_b);
      stop_control = p.input.stop_control || (y && not p.client.previous_y);
    };
  }

  -- The sticks are taken only where both are there.
  unfoldable pub note_sticks : Option (F × F) → Option (F × F) → Polling F → Polling F
  note_sticks none right p = p
  note_sticks (some (left_x, left_y)) none p = p
  note_sticks (some (left_x, left_y)) (some (right_x, right_y)) p = record p {
    client = record p.client {
      latest_left_x = left_x;
      latest_left_y = left_y;
      latest_right_x = right_x;
      latest_sticks_valid = true;
    };
  }

  unfoldable pub note_time : ℕ → Polling F → Polling F
  note_time time p = record p { client = record p.client { last_control_receive_ns = time } }

module _ {ℓ κ} {N : Type κ} {F : Type ℓ} ⦃fl : Floats F⦄ ⦃yaml : Yaml N⦄
    ⦃floats : YamlFloats N F⦄ where
  -- The right stick is read only where the left one is valid.
  abbrev pub right_axis : N → Option (F × F) → Result (Option (F × F))
  right_axis buttons none = ok none
  right_axis buttons (some left) = yaml_axis buttons "right_axis"

  unfoldable pub take_buttons : N → ℕ → Stateful (Polling F) (Unit {0})
  take_buttons buttons time = do
    x ← call (yaml_bool buttons "left_key_one")
    a ← call (yaml_bool buttons "right_key_one")
    y ← call (yaml_bool buttons "left_key_two")
    b ← call (yaml_bool buttons "right_key_two")
    modify (note_pressed x a y b)
    left ← call (yaml_axis buttons "left_axis")
    right ← call (right_axis buttons left)
    modify (note_sticks left right)
    modify (note_time time)

  unfoldable pub take_parsed : N → ℕ → Stateful (Polling F) (Unit {0})
  take_parsed parsed time = do
    buttons ← call (yaml.child parsed "controller_buttons")
    if yaml.is_defined buttons && yaml.is_map buttons then take_buttons buttons time else give tt

  module _ (yaml_load : List ℕ → Result N) where
    unfoldable pub take_control : List ℕ → ℕ → Stateful (Polling F) (Unit {0})
    take_control raw time = do
      parsed ← call (yaml_load raw)
      if yaml.is_defined parsed then take_parsed parsed time else give tt

    -- The loop. A message of several parts is drained, and an empty one ends the poll.
    unfoldable pub poll_control : List ControlPart → Stateful (Polling F) (Unit {0})
    poll_control [] = give tt
    poll_control (failed ∷ waiting) = give tt
    poll_control (part raw more time ∷ waiting) = do
      let next = poll_control waiting
      let taken = (λ p. ignored (take_control raw time p)) >> next
      if length raw == 0 then give tt else if more then next else taken

abbrev pub stick_stale_ns : ℕ
stick_stale_ns = 250000000

module _ {ℓ} {F : Type ℓ} where
  -- The difference of two `uint64_t`.
  unfoldable pub sticks_fresh : ℕ → VrClient F → Bool
  sticks_fresh current_ns c =
      c.latest_sticks_valid
      && (ltb 0 c.last_control_receive_ns
          && leb ((current_ns + (2 ^ 64 - c.last_control_receive_ns)) % 2 ^ 64) stick_stale_ns)

  unfoldable pub finish_poll : ℕ → Polling F → VrOperatorInput F
  finish_poll current_ns p =
      let input = p.input in
      let c = p.client in
      if sticks_fresh current_ns p.client
      then record input {
        sticks_valid = true;
        left_x = c.latest_left_x;
        left_y = c.latest_left_y;
        right_x = c.latest_right_x;
      }
      else record input { sticks_valid = false }

-- The end of a poll, after the loop.
abbrev pub end_poll {ℓ} :
    {F : Type ℓ} → ℕ → Polling F × Result (Unit {0}) → VrClient F × Result (VrOperatorInput F)
end_poll current_ns (p, ok u) = (p.client, ok (finish_poll current_ns p))
end_poll current_ns (p, err exception) = (p.client, err exception)

unfoldable pub poll_operator_input {ℓ κ} :
    {N : Type κ} {F : Type ℓ} ⦃fl : Floats F⦄ ⦃yaml : Yaml N⦄ ⦃floats : YamlFloats N F⦄
    → (List ℕ → Result N)
    → List ControlPart
    → ℕ
    → Stateful (VrClient F) (VrOperatorInput F)
poll_operator_input yaml_load waiting current_ns client =
    end_poll current_ns
      (poll_control yaml_load waiting (record { client = client; input = no_input }))
