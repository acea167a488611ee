-- ===== src/Geometry/Totality.antt =====
-- The quaternion functions of g1_npz_policy.cpp read no array out of bounds: each gives a value or
-- throws the norm exception.
use grit_deploy_onboard_g.Prelude.{
  ◌≡◌, refl, arith, Result, Ensures, returned, Ensures-bind, Ensures-require, Ensures-at, length,
}
use grit_deploy_onboard_g.Floats.{Floats}
use grit_deploy_onboard_g.Geometry.{
  Vec3, Quat, normalized, mul_quat, rotate, yaw_quat, replace_yaw, slerp, rotation_matrix, rot6d,
  rotation_vector,
}

-- A call that may throw but never reads out of bounds.
abbrev pub Always {ℓ} : {A : Type ℓ} → Result A → Type ℓ
Always m = Ensures (λ _. Unit {0}) m

module _ {ℓ} {F : Type ℓ} ⦃fl : Floats F⦄ where
  pub normalized-Always : (q : Quat F) → Always (normalized q)
  unfolding normalized
  normalized-Always q = Ensures-bind (Ensures-require _ _) λ u h. returned tt

  pub mul_quat-Always : (a b : Quat F) → Always (mul_quat a b)
  unfolding mul_quat
  mul_quat-Always a b = normalized-Always _

  pub rotate-Always : (q : Quat F) (v : Vec3 F) → Always (rotate q v)
  unfolding rotate
  rotate-Always q v = Ensures-bind (normalized-Always q) λ u h. returned tt

  pub yaw_quat-Always : (q : Quat F) → Always (yaw_quat q)
  unfolding yaw_quat
  yaw_quat-Always q = Ensures-bind (normalized-Always q) λ u h. returned tt

  pub replace_yaw-Always : (q r : Quat F) → Always (replace_yaw q r)
  unfolding replace_yaw
  replace_yaw-Always q r = Ensures-bind (yaw_quat-Always q) λ yaw _.
      Ensures-bind (normalized-Always q) λ upright _. Ensures-bind (mul_quat-Always _ _) λ tilt _.
        Ensures-bind (yaw_quat-Always r)
          λ heading _. Ensures-bind (mul_quat-Always _ _) λ aligned _. returned tt

  pub slerp-Always : (a b : Quat F) (t : F) → Always (slerp a b t)
  unfolding slerp
  slerp-Always a b t =
      Ensures-bind (normalized-Always a)
        λ _ _. Ensures-bind (normalized-Always b) λ _ _. normalized-Always _

  length-rotation_matrix : (q : Quat F) → Ensures (λ m. length m ≡ 9) (rotation_matrix q)
  unfolding rotation_matrix
  length-rotation_matrix q = Ensures-bind (normalized-Always q) λ _ _. returned refl

  pub length-rot6d : (q : Quat F) → Ensures (λ xs. length xs ≡ 6) (rot6d q)
  unfolding rot6d
  length-rot6d q = Ensures-bind (length-rotation_matrix q) λ m h.
      Ensures-bind (Ensures-at m 0 (omega arith)) λ _ _.
        Ensures-bind (Ensures-at m 1 (omega arith)) λ _ _.
          Ensures-bind (Ensures-at m 3 (omega arith)) λ _ _.
            Ensures-bind (Ensures-at m 4 (omega arith)) λ _ _.
              Ensures-bind (Ensures-at m 6 (omega arith))
                λ _ _. Ensures-bind (Ensures-at m 7 (omega arith)) λ _ _. returned refl

  pub rotation_vector-Always : (q : Quat F) → Always (rotation_vector q)
  unfolding rotation_vector
  rotation_vector-Always q = Ensures-bind (normalized-Always q) λ _ _. returned tt
