-- ===== src/Stateful.antt =====
-- Code of g1_sim2real/src that changes an object and may throw: what was changed before a throw stays
-- changed, for the handler that catches it.
pub mod Outcome
use Prim.Native.String.{String}
use grit_deploy_onboard_g.Prelude.{Result, ok, err, runtime_error}

abbrev pub Stateful {ℓ κ} : Type ℓ → Type κ → Type (ℓ ⊔ κ)
Stateful S A = S → S × Result A

module _ {ℓ} {S : Type ℓ} where
  abbrev pub after {κ μ} :
      {A : Type κ} {B : Type μ} → S × Result A → (A → Stateful S B) → S × Result B
  after (s, ok a) rest = rest a s
  after (s, err exception) rest = (s, err exception)

  infixl 5 ◌>>=◌
  abbrev pub ◌>>=◌ {κ μ} :
      {A : Type κ} {B : Type μ} → Stateful S A → (A → Stateful S B) → Stateful S B
  ◌>>=◌ m rest s = after (m s) rest

  infixl 5 ◌>>◌
  abbrev pub ◌>>◌ {κ μ} : {A : Type κ} {B : Type μ} → Stateful S A → Stateful S B → Stateful S B
  m >> rest = m >>= λ _. rest

  abbrev pub give {κ} : {A : Type κ} → A → Stateful S A
  give a s = (s, ok a)

  abbrev pub get : Stateful S S
  get s = (s, ok s)

  abbrev pub put : S → Stateful S (Unit {0})
  put s _ = (s, ok tt)

  abbrev pub modify : (S → S) → Stateful S (Unit {0})
  modify f s = (f s, ok tt)

  abbrev pub throw {κ} : {A : Type κ} → String → Stateful S A
  throw message s = (s, err (runtime_error message))

  -- A call that leaves the object alone.
  abbrev pub call {κ} : {A : Type κ} → Result A → Stateful S A
  call result s = (s, result)
