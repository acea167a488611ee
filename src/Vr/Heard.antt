-- ===== src/Vr/Heard.antt =====
-- The control messages that `poll_operator_input` (g1_sim2real/src/vr_motion_client.cpp) hears.
use grit_deploy_onboard_g.Prelude.{
  ℕ, ◌≡◌, ◌∙◌, ◌⊎◌, inl, inr, Bool, true, false, List, ◌∷◌, length, ◌==◌, Result, ok,
}
use grit_deploy_onboard_g.Yaml.{Yaml}
use grit_deploy_onboard_g.Vr.Control.{ControlPart, part}

module _ {κ} {N : Type κ} ⦃yaml : Yaml N⦄ where
  -- A message with a map of the controllers' buttons.
  abbrev pub HasButtons : N → Type κ
  HasButtons parsed =
      (buttons : N) × (yaml.child parsed "controller_buttons" ≡ ok buttons)
      × (yaml.is_map buttons ≡ true)

  module _ (yaml_load : List ℕ → Result N) where
    abbrev pub IsControl : List ℕ → Type κ
    IsControl raw = (parsed : N) × (yaml_load raw ≡ ok parsed) × HasButtons parsed

    -- A control message, in one part, that is received at the time `n` before the poll ends.
    pub data HeardAt (n : ℕ) : List ControlPart → Type κ where
      heard :
          {raw : List ℕ} {more : Bool} {time : ℕ} {waiting : List ControlPart}
          → (length raw == 0) ≡ false
          → more ≡ false
          → IsControl raw
          → n ≡ time
          → HeardAt n (part raw more time ∷ waiting)
      past :
          {raw : List ℕ} {more : Bool} {time : ℕ} {waiting : List ControlPart}
          → (length raw == 0) ≡ false
          → HeardAt n waiting
          → HeardAt n (part raw more time ∷ waiting)

    -- The time before the poll, or that of a control message of the poll.
    abbrev pub Since : List ControlPart → ℕ → ℕ → Type κ
    Since waiting before now = (now ≡ before) ⊎ HeardAt now waiting

    pub later :
        {raw : List ℕ} {more : Bool} {time before now : ℕ} {waiting : List ControlPart}
        → (length raw == 0) ≡ false
        → Since waiting before now
        → Since (part raw more time ∷ waiting) before now
    later some_byte (inl e) = inl e
    later some_byte (inr h) = inr (past some_byte h)

    pub Since-heard :
        {raw : List ℕ} {more : Bool} {time before between now : ℕ} {waiting : List ControlPart}
        → (length raw == 0) ≡ false
        → more ≡ false
        → (between ≡ before) ⊎ ((between ≡ time) × IsControl raw)
        → Since waiting between now
        → Since (part raw more time ∷ waiting) before now
    Since-heard some_byte whole kept (inr h) = inr (past some_byte h)
    Since-heard some_byte whole (inl e) (inl f) = inl (f ∙ e)
    Since-heard some_byte whole (inr (e, c)) (inl f) = inr (heard some_byte whole c (f ∙ e))
