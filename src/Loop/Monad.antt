-- ===== src/Loop/Monad.antt =====
-- The control loop's code (g1_sim2real/src/g1_npz_policy.cpp, `main`): it changes the loop's variables and
-- may throw.
use grit_deploy_onboard_g.Stateful.{Stateful}
use grit_deploy_onboard_g.Loop.{Loop}

abbrev pub LoopM {ℓ κ} : Type ℓ → Type κ → Type (ℓ ⊔ κ)
LoopM F A = Stateful (Loop F) A
