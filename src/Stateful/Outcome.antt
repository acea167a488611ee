-- ===== src/Stateful/Outcome.antt =====
-- What code that changes an object (g1_sim2real/src) guarantees: of its result and the object where it
-- returns, and of the object where it throws.
use Prim.Native.String.{String}
use grit_deploy_onboard_g.Prelude.{
  ◌≡◌, refl, Bool, true, false, if◌then◌else◌, Result, ok, err, runtime_error, Ensures, returned,
  thrown,
}
use grit_deploy_onboard_g.Stateful.{Stateful, after}

pub data Outcome {ℓ κ μ ν} {S : Type ℓ} {A : Type κ} (Q : A → S → Type μ) (E : S → Type ν)
    : S × Result A → Type (ℓ ⊔ κ ⊔ μ ⊔ ν) where
  gave : {s : S} {a : A} → Q a s → Outcome Q E (s, ok a)
  threw : {s : S} {message : String} → E s → Outcome Q E (s, err (runtime_error message))

module _ {ℓ ν} {S : Type ℓ} {E : S → Type ν} where
  pub Outcome-after {κ μ η θ} :
      {A : Type κ} {B : Type μ} {Q : A → S → Type η} {R : B → S → Type θ} {outcome : S × Result A}
      {rest : A → Stateful S B}
      → Outcome Q E outcome
      → ((a : A) (s : S) → Q a s → Outcome R E (rest a s))
      → Outcome R E (after outcome rest)
  Outcome-after (gave q) h = h _ _ q
  Outcome-after (threw e) h = threw e

  -- A call that leaves the object alone, and what follows it.
  pub Outcome-call {κ μ η θ} :
      {A : Type κ} {B : Type μ} {P : A → Type η} {R : B → S → Type θ} {s : S} {result : Result A}
      (rest : A → Stateful S B)
      → Ensures P result
      → E s
      → ((a : A) → P a → Outcome R E (rest a s))
      → Outcome R E (after (s, result) rest)
  Outcome-call rest (returned p) e h = h _ p
  Outcome-call rest thrown e h = threw e

  -- A call that leaves the object alone, at the end.
  pub Outcome-ensures {κ μ η} :
      {A : Type κ} {P : A → Type μ} {Q : A → S → Type η} {s : S} {result : Result A}
      → Ensures P result
      → E s
      → ((a : A) → P a → Q a s)
      → Outcome Q E (s, result)
  Outcome-ensures (returned p) e h = gave (h _ p)
  Outcome-ensures thrown e h = threw e

  pub Outcome-split {κ μ} :
      {A : Type κ} {Q : A → S → Type μ} (b : Bool) (m n : Stateful S A) {s : S}
      → (b ≡ true → Outcome Q E (m s))
      → (b ≡ false → Outcome Q E (n s))
      → Outcome Q E ((if b then m else n) s)
  Outcome-split true m n p q = p refl
  Outcome-split false m n p q = q refl

  pub Outcome-weaken {κ μ η} :
      {A : Type κ} {Q : A → S → Type μ} {R : A → S → Type η} {outcome : S × Result A}
      → Outcome Q E outcome
      → ((a : A) (s : S) → Q a s → R a s)
      → Outcome R E outcome
  Outcome-weaken (gave q) h = gave (h _ _ q)
  Outcome-weaken (threw e) h = threw e

  pub Outcome-implies {κ μ η θ} :
      {A : Type κ} {Q : A → S → Type μ} {R : A → S → Type η} {D : S → Type θ}
      {outcome : S × Result A}
      → Outcome Q E outcome
      → ((a : A) (s : S) → Q a s → R a s)
      → ((s : S) → E s → D s)
      → Outcome R D outcome
  Outcome-implies (gave q) h k = gave (h _ _ q)
  Outcome-implies (threw e) h k = threw (k _ e)

  -- A sequence within a sequence.
  pub Outcome-assoc {κ μ θ η} :
      {A : Type κ} {B : Type μ} {C : Type θ} {R : C → S → Type η} (outcome : S × Result A)
      (f : A → Stateful S B) (g : B → Stateful S C)
      → Outcome R E (after outcome λ a s. after (f a s) g)
      → Outcome R E (after (after outcome f) g)
  Outcome-assoc (s, ok a) f g h = h
  Outcome-assoc (s, err exception) f g h = h
