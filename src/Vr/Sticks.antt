-- ===== src/Vr/Sticks.antt =====
-- The sticks that `poll_operator_input` (g1_sim2real/src/vr_motion_client.cpp) gives.
use Prim.Native.String.{String}
use grit_deploy_onboard_g.Prelude.{
  ◌⊎◌, inl, inr, and_right, Ensures-self, ℕ, ◌+◌, ◌-◌, ◌%◌, ◌^◌, ◌≤◌, ◌<◌, ◌≡◌, refl, arith, Bool,
  true, false, ◌&&◌, Option, none, some, List, [], ◌∷◌, length, ltb, leb, ◌==◌, if-split, Result,
  Ensures, returned, Ensures-bind, Ensures-if, catch-Returns, Returns, returns,
}
use grit_deploy_onboard_g.Stateful.Outcome.{
  Outcome, gave, threw, Outcome-weaken, Outcome-implies, Outcome-call, Outcome-after, Outcome-split,
}
use grit_deploy_onboard_g.Floats.{Floats}
use grit_deploy_onboard_g.Geometry.Totality.{Always}
use grit_deploy_onboard_g.Yaml.{Yaml, YamlFloats}
use grit_deploy_onboard_g.Yaml.Reads.{IsYaml, IsYamlFloats}
use grit_deploy_onboard_g.Loop.{VrOperatorInput}
use grit_deploy_onboard_g.Vr.{
  VrClient, yaml_bool, is_pair, clamp_axis, read_pair, finite_pair, yaml_axis,
}
use grit_deploy_onboard_g.Vr.Heard.{HasButtons, IsControl, Since, later, Since-heard}
use grit_deploy_onboard_g.Vr.Control.{
  ControlPart, failed, part, Polling, ignored, note_pressed, note_sticks, note_time, right_axis,
  take_buttons, take_parsed, take_control, poll_control, stick_stale_ns, sticks_fresh, finish_poll,
  end_poll, poll_operator_input,
}

module _ {ℓ} {F : Type ℓ} ⦃fl : Floats F⦄ where
  -- A finite number that is clamped to the range of an axis.
  abbrev pub IsAxis : F → Type ℓ
  IsAxis v = (w : F) × (fl.isfinite w ≡ true) × (v ≡ clamp_axis w)

  abbrev AreAxes : Option (F × F) → Type ℓ
  AreAxes none = Unit
  AreAxes (some (x, y)) = IsAxis x × IsAxis y

  -- The sticks that the client holds, where it holds any.
  abbrev HasSticks : Bool → F → F → F → Type ℓ
  HasSticks valid left_x left_y right_x =
      valid ≡ true → IsAxis left_x × IsAxis left_y × IsAxis right_x

  abbrev pub IsClient : VrClient F → Type ℓ
  IsClient c = HasSticks c.latest_sticks_valid c.latest_left_x c.latest_left_y c.latest_right_x

  abbrev Holds : Polling F → Type ℓ
  Holds p = IsClient p.client

  finite_pair-AreAxes : (read : Option (F × F)) → AreAxes (finite_pair read)
  unfolding finite_pair
  finite_pair-AreAxes none = tt
  finite_pair-AreAxes (some (x, y)) =
      if-split AreAxes (fl.isfinite x && fl.isfinite y)
        (λ h. ((x, ground arith, refl), (y, ground arith, refl))) λ _. tt

  note_sticks-Holds :
      (left right : Option (F × F)) (p : Polling F)
      → AreAxes left
      → AreAxes right
      → Holds p
      → Holds (note_sticks left right p)
  unfolding note_sticks
  note_sticks-Holds none right p h k holds = holds
  note_sticks-Holds (some (left_x, left_y)) none p h k holds = holds
  note_sticks-Holds (some (left_x, left_y)) (some (right_x, right_y)) p h k holds =
      λ _. (h.0, h.1, k.0)

  abbrev received_at : Polling F → ℕ
  received_at p = p.client.last_control_receive_ns

  -- The time that the client keeps is the one before, or the message's, which then has `P`.
  abbrev Noted {κ} : Type κ → ℕ → Polling F → Polling F → Type κ
  Noted P time p r = (received_at r ≡ received_at p) ⊎ ((received_at r ≡ time) × P)

  ignored-Holds {κ} :
      {Q : Polling F → Type κ} {r : Polling F × Result (Unit {0})}
      → Outcome (λ _ q. Q q) Q r
      → Outcome (λ _ q. Q q) (λ q. ⊥) (ignored r)
  ignored-Holds (gave h) = gave h
  ignored-Holds (threw h) = gave h

Noted-of {κ μ} :
    {P : Type κ} {Q : Type μ} {before time now : ℕ}
    → (P → Q)
    → (now ≡ before) ⊎ ((now ≡ time) × P)
    → (now ≡ before) ⊎ ((now ≡ time) × Q)
Noted-of f (inl e) = inl e
Noted-of f (inr (e, p)) = inr (e, f p)

Returns-Ensures {ℓ κ} : {A : Type ℓ} {P : A → Type κ} {m : Result A} → Returns P m → Ensures P m
Returns-Ensures (returns p) = returned p

module _ {ℓ κ} {N : Type κ} {F : Type ℓ} ⦃fl : Floats F⦄ ⦃yaml : Yaml N⦄ ⦃floats : YamlFloats N F⦄
    (law : IsYaml yaml) (float_law : IsYamlFloats floats) where
  read_pair-Always : (value : N) → Always (read_pair {F = F} value)
  unfolding read_pair
  read_pair-Always value = Returns-Ensures (
      catch-Returns none tt (
        Ensures-bind (law.element value 0) λ first _. Ensures-bind (float_law.as_float first) λ _ _.
          Ensures-bind (law.element value 1)
            λ second _. Ensures-bind (float_law.as_float second) λ _ _. returned tt))

  yaml_axis-AreAxes : (node : N) (key : String) → Ensures AreAxes (yaml_axis {F = F} node key)
  unfolding yaml_axis
  yaml_axis-AreAxes node key = Ensures-bind (law.child node key) λ value _.
      Ensures-if (is_pair value)
        (Ensures-bind (read_pair-Always value) λ read _. returned (finite_pair-AreAxes read))
        (returned tt)

  right_axis-AreAxes :
      (buttons : N) (left : Option (F × F)) → Ensures AreAxes (right_axis buttons left)
  right_axis-AreAxes buttons none = returned tt
  right_axis-AreAxes buttons (some left) = yaml_axis-AreAxes buttons "right_axis"

  yaml_bool-Always : (node : N) (key : String) → Always (yaml_bool node key)
  unfolding yaml_bool
  yaml_bool-Always node key = Ensures-bind (law.child node key) λ _ _. returned tt

  take_buttons-Holds :
      (buttons : N) (time : ℕ) (p : Polling F)
      → Holds p
      → Outcome
          (λ _ r. Holds r × (received_at r ≡ time))
          (λ r. Holds r × (received_at r ≡ received_at p))
          (take_buttons buttons time p)
  unfolding take_buttons note_pressed note_time
  take_buttons-Holds buttons time p h =
      let pressed = yaml_bool-Always buttons in
      Outcome-call _ (pressed "left_key_one") (h, refl)
        λ _ _.
          Outcome-call _ (pressed "right_key_one") (h, refl)
            λ _ _.
              Outcome-call _ (pressed "left_key_two") (h, refl)
                λ _ _.
                  Outcome-call _ (pressed "right_key_two") (h, refl)
                    λ _ _.
                      Outcome-call _ (yaml_axis-AreAxes buttons "left_axis") (h, refl)
                        λ left hl.
                          Outcome-call _ (right_axis-AreAxes buttons left) (h, refl)
                            λ right hr. gave (note_sticks-Holds left right _ hl hr h, refl)

  take_parsed-Holds :
      (parsed : N) (time : ℕ) (p : Polling F)
      → Holds p
      → Outcome
          (λ _ r. Holds r × Noted (HasButtons parsed) time p r)
          (λ r. Holds r × Noted (HasButtons parsed) time p r)
          (take_parsed parsed time p)
  unfolding take_parsed
  take_parsed-Holds parsed time p h =
      Outcome-call _ (Ensures-self (law.child parsed "controller_buttons")) (h, inl refl)
        λ buttons at.
          Outcome-split (yaml.is_defined buttons && yaml.is_map buttons) (take_buttons buttons time)
            _
            (λ map.
              Outcome-implies (take_buttons-Holds buttons time p h)
                (λ _ r k. (k.0, inr (k.1, (buttons, at.1, and_right _ _ map))))
                λ r k. (k.0, inl k.1))
            λ _. gave (h, inl refl)

  module _ (yaml_load : List ℕ → Result N) (loads : (text : List ℕ) → Always (yaml_load text)) where
    take_control-Holds :
        (raw : List ℕ) (time : ℕ) (p : Polling F)
        → Holds p
        → Outcome
            (λ _ r. Holds r × Noted (IsControl yaml_load raw) time p r)
            (λ r. Holds r × Noted (IsControl yaml_load raw) time p r)
            (take_control yaml_load raw time p)
    unfolding take_control
    take_control-Holds raw time p h =
        Outcome-call _ (Ensures-self (loads raw)) (h, inl refl)
          λ parsed read.
            Outcome-split (yaml.is_defined parsed) (take_parsed parsed time) _
              (λ _.
                Outcome-implies (take_parsed-Holds parsed time p h)
                  (λ _ r k. (k.0, Noted-of (λ b. (parsed, read.1, b)) k.1))
                  λ r k. (k.0, Noted-of (λ b. (parsed, read.1, b)) k.1))
              λ _. gave (h, inl refl)

    poll_control-Holds :
        (waiting : List ControlPart) (p : Polling F)
        → Holds p
        → Outcome
            (λ _ r. Holds r × Since yaml_load waiting (received_at p) (received_at r))
            (λ r. ⊥)
            (poll_control yaml_load waiting p)
    unfolding poll_control
    poll_control-Holds [] p h = gave (h, inl refl)
    poll_control-Holds (failed ∷ waiting) p h = gave (h, inl refl)
    poll_control-Holds (part raw more time ∷ waiting) p h =
        Outcome-split (length raw == 0) _ _ (λ _. gave (h, inl refl))
          λ some_byte.
            Outcome-split more (poll_control yaml_load waiting) _
              (λ _.
                Outcome-weaken (poll_control-Holds waiting p h)
                  λ _ r k. (k.0, later yaml_load some_byte k.1))
              λ whole. Outcome-after (ignored-Holds (take_control-Holds raw time p h)) λ _ r k.
                Outcome-weaken (poll_control-Holds waiting r k.0)
                  λ _ q n. (n.0, Since-heard yaml_load some_byte whole k.1 n.1)

-- Sticks that are valid are finite numbers within the axes' range, and the client's time of a control
-- message is at most 250 ms ago.
pub record IsPolled {ℓ} {F : Type ℓ} ⦃fl : Floats F⦄ (current_ns : ℕ) (input : VrOperatorInput F)
    (c : VrClient F) : Type ℓ where
  pub has_control : 0 < c.last_control_receive_ns
  pub fresh : (current_ns + (2 ^ 64 - c.last_control_receive_ns)) % 2 ^ 64 ≤ stick_stale_ns
  pub left_x : IsAxis input.left_x
  pub left_y : IsAxis input.left_y
  pub right_x : IsAxis input.right_x

module _ {ℓ} {F : Type ℓ} ⦃fl : Floats F⦄ where
  finish_poll-IsPolled :
      (current_ns : ℕ) (p : Polling F)
      → Holds p
      → (finish_poll current_ns p).sticks_valid ≡ true
      → IsPolled current_ns (finish_poll current_ns p) p.client
  unfolding finish_poll sticks_fresh
  finish_poll-IsPolled current_ns p h =
      if-split (λ i. i.sticks_valid ≡ true → IsPolled current_ns i p.client)
        (p.client.latest_sticks_valid
          && (ltb 0 p.client.last_control_receive_ns
              && leb ((current_ns + (2 ^ 64 - p.client.last_control_receive_ns)) % 2 ^ 64)
                  stick_stale_ns))
        (λ valid _.
          let axes = h (ground arith) in
          record {
            has_control = ground arith;
            fresh = ground arith;
            left_x = axes.0;
            left_y = axes.1;
            right_x = axes.2;
          })
        λ _ (e : false ≡ true). absurd (cc)

  end_poll-IsPolled {κ} :
      (T : ℕ → Type κ) (current_ns : ℕ) {r : Polling F × Result (Unit {0})}
      → Outcome (λ _ q. Holds q × T (received_at q)) (λ q. ⊥) r
      → Outcome
          (λ input c.
            IsClient c
            × T c.last_control_receive_ns
            × (input.sticks_valid ≡ true → IsPolled current_ns input c))
          (λ c. ⊥)
          (end_poll current_ns r)
  end_poll-IsPolled T current_ns (gave {s = p} h) =
      gave (h.0, h.1, finish_poll-IsPolled current_ns p h.0)
  end_poll-IsPolled T current_ns (threw h) = absurd h

  -- A poll of the operator's input never throws, whatever waits at the socket. The time of control that
  -- the client keeps is the one from before the poll, or that of a message of the poll that loads and
  -- has a map of buttons. Where the poll says that the sticks are valid, that time is at most 250 ms
  -- ago by the 64-bit clock, and the three stick values are finite numbers clamped to the axes' range,
  -- from this poll or from what the client held, however old, since a message without valid sticks
  -- renews the time too. The client keeps what makes it so at the next poll. YAML's loader and
  -- yaml-cpp's conversions return or throw.
  pub poll_operator_input-IsPolled {κ} :
      {N : Type κ} ⦃yaml : Yaml N⦄ ⦃floats : YamlFloats N F⦄ (law : IsYaml yaml)
      (float_law : IsYamlFloats floats) (yaml_load : List ℕ → Result N)
      (loads : (text : List ℕ) → Always (yaml_load text)) (waiting : List ControlPart)
      (current_ns : ℕ) (client : VrClient F)
      → IsClient client
      → Outcome
          (λ input c.
            IsClient c
            × Since yaml_load waiting client.last_control_receive_ns c.last_control_receive_ns
            × (input.sticks_valid ≡ true → IsPolled current_ns input c))
          (λ c. ⊥)
          (poll_operator_input yaml_load waiting current_ns client)
  unfolding poll_operator_input
  poll_operator_input-IsPolled law float_law yaml_load loads waiting current_ns client h =
      end_poll-IsPolled (Since yaml_load waiting client.last_control_receive_ns) current_ns
        (poll_control-Holds law float_law yaml_load loads waiting _ h)
