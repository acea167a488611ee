-- ===== src/Segment/Shape.antt =====
-- The arrays of a segment built by `build_segment` (g1_npz_policy.cpp) have the sizes that its
-- frame count promises, and building it reads no array out of bounds.
use grit_deploy_onboard_g.Prelude.{
  ℕ, ◌^◌, ◌%◌, false, Ensures-require, zero, suc, ◌+◌, ◌*◌, ◌≤◌, ◌<◌, ◌≡◌, refl, ap, arith, ◌||◌,
  List, [], ◌∷◌, ◌++◌, map, min, ltb, ◌==◌, length, length-append, length-map, All, Ensures,
  returned, Ensures-bind, Ensures-if, Ensures-at, Ensures-slice, Ensures-map_m,
}
use grit_deploy_onboard_g.Floats.{Floats, ◌*F◌, ◌/F◌, float}
use grit_deploy_onboard_g.Geometry.{Vec3, Quat}
use grit_deploy_onboard_g.Geometry.Totality.{
  Always, mul_quat-Always, rotate-Always, slerp-Always, length-rot6d, rotation_vector-Always,
}
use grit_deploy_onboard_g.Segment.{
  Motion, ReferenceSegment, dof, feature_dim, below_from, below, zip_with, concat, vec_values,
  angular_velocity, feature_row, finite_difference_features, align_frame, transition_frame,
  exported_row, blend, sample_before, sample_after,
}

below_from-lt : (m t n : ℕ) → t + n ≤ m → All (λ i. i < m) (below_from t n)
unfolding below_from
below_from-lt m t zero h = tt
below_from-lt m t (suc n) h = (omega arith, below_from-lt m (t + 1) n (omega arith))

length-below_from : (t n : ℕ) → length (below_from t n) ≡ n
unfolding below_from
length-below_from t zero = refl
length-below_from t (suc n) = ap suc (length-below_from (t + 1) n)

pub below-lt : (n : ℕ) → All (λ i. i < n) (below n)
unfolding below
below-lt n = below_from-lt n 0 n (omega arith)

pub length-below : (n : ℕ) → length (below n) ≡ n
unfolding below
length-below n = length-below_from 0 n

pub length-concat {ℓ} :
    {A : Type ℓ} (n : ℕ) (xss : List (List A))
    → All (λ xs. length xs ≡ n) xss
    → length (concat xss) ≡ length xss * n
unfolding concat
length-concat n [] h = omega arith
length-concat n (xs ∷ xss) h =
    omega (arith, length-append xs (concat xss), length-concat n xss h.1, h.0)

pub length-zip_with {ℓ} :
    {A : Type ℓ} (f : A → A → A) (xs ys : List A)
    → length (zip_with f xs ys) ≡ min (length xs) (length ys)
unfolding zip_with
length-zip_with f [] ys = omega arith
length-zip_with f (x ∷ xs) [] = omega arith
length-zip_with f (x ∷ xs) (y ∷ ys) = omega (arith, length-zip_with f xs ys)

-- The neighbours of a frame are frames, where a 32-bit `int` holds every index.
pub sample_before-lt :
    (frames t : ℕ) → t < frames → frames < 2 ^ 31 → sample_before frames t < frames
unfolding sample_before
sample_before-lt frames t h small = ground arith

pub sample_after-lt : (frames t : ℕ) → t < frames → frames < 2 ^ 31 → sample_after frames t < frames
unfolding sample_after
sample_after-lt frames t h small = ground arith

-- A motion whose arrays have the sizes that `load_motion` and `default_motion` give them.
pub record IsMotion {ℓ} {F : Type ℓ} (m : Motion F) : Type 0 where
  pub some_frame : 0 < m.frames
  pub joint_pos : length m.joint_pos ≡ m.frames * dof
  pub joint_vel : length m.joint_vel ≡ m.frames * dof
  pub root_pos : length m.root_pos ≡ m.frames
  pub root_quat : length m.root_quat ≡ m.frames
  pub root_lin_vel : length m.root_lin_vel_b ≡ m.frames
  pub root_ang_vel : length m.root_ang_vel_b ≡ m.frames
  pub bounded : m.frames * dof < 2 ^ 64
  pub estimated : m.exported_velocities ≡ false → m.frames < 2 ^ 30

-- A segment whose arrays hold `frames` frames and whose index is one of them.
pub record IsSegment {ℓ} {F : Type ℓ} (s : ReferenceSegment F) : Type 0 where
  pub in_range : s.index < s.frames
  pub joints : length s.joints ≡ s.frames * dof
  pub positions : length s.positions ≡ s.frames
  pub quaternions : length s.quaternions ≡ s.frames
  pub features : length s.features ≡ s.frames * feature_dim

module _ {ℓ} {F : Type ℓ} ⦃fl : Floats F⦄ where
  angular_velocity-Always :
      (quaternions : List (Quat F)) (fps : F) (frames t : ℕ)
      → length quaternions ≡ frames
      → t < frames
      → frames < 2 ^ 31
      → Always (angular_velocity quaternions fps frames t)
  unfolding angular_velocity
  angular_velocity-Always quaternions fps frames t e h small =
      let before_lt = sample_before-lt frames t h small in
      let after_lt = sample_after-lt frames t h small in
      Ensures-bind (Ensures-at quaternions t (omega arith)) λ here _.
        Ensures-bind (Ensures-at quaternions _ (omega (arith, before_lt))) λ before _.
          Ensures-bind (Ensures-at quaternions _ (omega (arith, after_lt))) λ after _.
            Ensures-if (ltb 1 frames)
              (Ensures-if ((t == 0) || ((t + 1) == frames))
                (Ensures-bind (mul_quat-Always _ _)
                  λ _ _. Ensures-bind (rotation_vector-Always _) λ _ _. returned tt)
                (Ensures-bind (mul_quat-Always _ _) λ _ _.
                  Ensures-bind (rotation_vector-Always _) λ _ _.
                    Ensures-bind (mul_quat-Always _ _)
                      λ _ _. Ensures-bind (rotation_vector-Always _) λ _ _. returned tt))
              (returned tt)

  length-velocities :
      (scale : F) (xs ys : List F)
      → length xs ≡ dof
      → length ys ≡ dof
      → length (map (λ d. d *F scale) (zip_with fl.sub xs ys)) ≡ dof
  length-velocities scale xs ys h k =
      omega
        (arith, length-map (λ d. d *F scale) (zip_with fl.sub xs ys), length-zip_with fl.sub xs ys)

  -- The parts of a row add up to 70 values.
  row-length :
      (now vel orientation : List F) (a b : Vec3 F)
      → length now ≡ dof
      → length vel ≡ dof
      → length orientation ≡ 6
      → length (now ++ (vel ++ (orientation ++ (vec_values a ++ vec_values b)))) ≡ feature_dim
  unfolding vec_values
  row-length now vel orientation a b h k r = omega (
    arith,
    length-append now (vel ++ (orientation ++ (vec_values a ++ vec_values b))),
    length-append vel (orientation ++ (vec_values a ++ vec_values b)),
    length-append orientation (vec_values a ++ vec_values b),
  )

  length-feature_row :
      (joints : List F) (positions : List (Vec3 F)) (quaternions : List (Quat F)) (fps : F)
      (frames t : ℕ)
      → length joints ≡ frames * dof
      → length positions ≡ frames
      → length quaternions ≡ frames
      → t < frames
      → frames < 2 ^ 31
      → Ensures
          (λ row. length row ≡ feature_dim)
          (feature_row joints positions quaternions fps frames t)
  unfolding feature_row
  length-feature_row joints positions quaternions fps frames t ej ep eq h small =
      let before_lt = sample_before-lt frames t h small in
      let after_lt = sample_after-lt frames t h small in
      Ensures-bind (Ensures-slice joints (t * dof) dof (omega arith)) λ now hn.
        Ensures-bind (Ensures-slice joints _ dof (omega (arith, after_lt))) λ joints_after ha.
          Ensures-bind (Ensures-slice joints _ dof (omega (arith, before_lt))) λ joints_before hb.
            Ensures-bind (Ensures-at quaternions t (omega arith)) λ here _.
              Ensures-bind (length-rot6d here) λ orientation ho.
                Ensures-bind (Ensures-at positions _ (omega (arith, after_lt))) λ _ _.
                  Ensures-bind (Ensures-at positions _ (omega (arith, before_lt))) λ _ _.
                    Ensures-bind (rotate-Always _ _) λ velocity _.
                      Ensures-bind (angular_velocity-Always quaternions fps frames t eq h small)
                        λ angular _. returned (
                          row-length now _ orientation velocity angular hn.1
                            (length-velocities _ joints_after joints_before ha.1 hb.1) ho)

  -- Finite differences over arrays of matching sizes give 70 values a frame, and read in range.
  pub length-finite_difference_features :
      (joints : List F) (positions : List (Vec3 F)) (quaternions : List (Quat F)) (fps : F)
      → length joints ≡ length positions * dof
      → length quaternions ≡ length positions
      → length positions < 2 ^ 31
      → Ensures
          (λ features. length features ≡ length positions * feature_dim)
          (finite_difference_features joints positions quaternions fps)
  unfolding finite_difference_features
  length-finite_difference_features joints positions quaternions fps ej eq small =
      Ensures-bind (Ensures-require _ _) λ _ _.
        Ensures-bind
          (Ensures-map_m (λ t. t < length positions) (λ row. length row ≡ feature_dim) _ _
            (λ t h. length-feature_row joints positions quaternions fps _ t ej refl eq h small)
            (below-lt (length positions)))
          λ rows h. returned (
            omega (
              arith,
              length-concat feature_dim rows h.0,
              h.1,
              length-below (length positions),
              ap (λ (k : ℕ). k * feature_dim) h.1,
            ))

  pub align_frame-Always :
      (yaw_delta : Quat F) (anchor first : Vec3 F) (source : Motion F) (t : ℕ)
      → IsMotion source
      → t < source.frames
      → Always (align_frame yaw_delta anchor first source t)
  unfolding align_frame
  align_frame-Always yaw_delta anchor first source t v h =
      Ensures-bind (Ensures-at source.root_pos t (omega arith)) λ _ _.
        Ensures-bind (Ensures-at source.root_quat t (omega arith)) λ _ _.
          Ensures-bind (rotate-Always _ _)
            λ _ _. Ensures-bind (mul_quat-Always _ _) λ _ _. returned tt

  -- The part of the first frame in the transition's frame `t`.
  abbrev pub mixed : ℕ → ℕ → F
  mixed steps t = float (t + 1) /F float ((steps + 1) % 2 ^ 64)

  pub length-transition_frame :
      (anchor_joint : List F) (anchor_pos : Vec3 F) (anchor_quat : Quat F) (first_joints : List F)
      (first : Vec3 F × Quat F) (steps t : ℕ)
      → length anchor_joint ≡ dof
      → length first_joints ≡ dof
      → Ensures
          (λ f.
            (length f.0 ≡ dof) × (f.0 ≡ zip_with (blend (mixed steps t)) anchor_joint first_joints))
          (transition_frame anchor_joint anchor_pos anchor_quat first_joints first steps t)
  unfolding transition_frame
  length-transition_frame anchor_joint anchor_pos anchor_quat first_joints first steps t h k =
      Ensures-bind (slerp-Always _ _ _)
        λ _ _. returned (omega (arith, length-zip_with (blend _) anchor_joint first_joints), refl)

  pub length-exported_row :
      (source : Motion F) (aligned_quat : List (Quat F)) (t : ℕ)
      → IsMotion source
      → length aligned_quat ≡ source.frames
      → t < source.frames
      → Ensures (λ row. length row ≡ feature_dim) (exported_row source aligned_quat t)
  unfolding exported_row
  length-exported_row source aligned_quat t v e h =
      Ensures-bind (Ensures-slice source.joint_pos (t * dof) dof (omega arith)) λ pos hp.
        Ensures-bind (Ensures-slice source.joint_vel (t * dof) dof (omega arith)) λ vel hv.
          Ensures-bind (Ensures-at aligned_quat t (omega arith)) λ _ _.
            Ensures-bind (length-rot6d _) λ orientation ho.
              Ensures-bind (Ensures-at source.root_lin_vel_b t (omega arith)) λ linear _.
                Ensures-bind (Ensures-at source.root_ang_vel_b t (omega arith))
                  λ angular _. returned (row-length pos vel orientation linear angular hp.1 hv.1 ho)
