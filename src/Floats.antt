-- ===== src/Floats.antt =====
-- The `float` operations that the C++ sources use (g1_sim2real/src/g1_npz_policy.cpp and
-- g1_udp_bridge.cpp), as an interface: the hardware and <cmath> implement them.
use grit_deploy_onboard_g.Prelude.{ℕ, Bool, if◌then◌else◌}

pub record Floats {ℓ} (F : Type ℓ) : Type ℓ where
  -- `decimal m k` is the literal m / 10^k, and `decimal n 0` is the conversion of an integer.
  pub decimal : ℕ → ℕ → F
  pub add : F → F → F
  pub sub : F → F → F
  pub mul : F → F → F
  pub div : F → F → F
  pub neg : F → F
  pub abs : F → F
  pub sqrt : F → F
  pub sin : F → F
  pub cos : F → F
  pub acos : F → F
  pub atan2 : F → F → F
  pub lt : F → F → Bool
  pub le : F → F → Bool
  pub isfinite : F → Bool

module _ {ℓ} {F : Type ℓ} ⦃fl : Floats F⦄ where
  infixl 65 ◌+F◌ ◌-F◌
  infixl 70 ◌*F◌ ◌/F◌
  infix 50 ◌<F◌ ◌≤F◌
  abbrev pub ◌+F◌ : F → F → F
  a +F b = fl.add a b

  abbrev pub ◌-F◌ : F → F → F
  a -F b = fl.sub a b

  abbrev pub ◌*F◌ : F → F → F
  a *F b = fl.mul a b

  abbrev pub ◌/F◌ : F → F → F
  a /F b = fl.div a b

  -- Comparisons are tests; both are false on a NaN.
  abbrev pub ◌<F◌ : F → F → Bool
  a <F b = fl.lt a b

  abbrev pub ◌≤F◌ : F → F → Bool
  a ≤F b = fl.le a b

  abbrev pub float : ℕ → F
  float n = fl.decimal n 0

  -- `std::clamp(value, low, high)`: a NaN passes through.
  abbrev pub clamp : F → F → F → F
  clamp value low high = if value <F low then low else if high <F value then high else value

  -- `std::min(a, b)` is `b < a ? b : a`.
  abbrev pub fmin : F → F → F
  fmin a b = if b <F a then b else a
