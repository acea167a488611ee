-- ===== src/Npz/Shapes.antt =====
-- The shapes that `load_motion` (g1_sim2real/src/g1_npz_policy.cpp) has tested, and the values at their
-- places.
use grit_deploy_onboard_g.Prelude.{
  true, false, ℕ, ◌+◌, ◌*◌, ◌^◌, ◌≤◌, ◌<◌, ◌≡◌, refl, arith, ap, ◌∙◌, List, [], ◌∷◌, length,
  length-map, Ensures, returned, thrown, Ensures-bind, Ensures-require, Ensures-weaken, Ensures-at,
}
use grit_deploy_onboard_g.Geometry.Totality.{Always}
use grit_deploy_onboard_g.Segment.{dof}
use grit_deploy_onboard_g.Segment.Shape.{IsMotion}
use grit_deploy_onboard_g.Wire.Checks.{list_eq→eq}
use grit_deploy_onboard_g.Bridge.Arrays.Bounds.{row_le}
use grit_deploy_onboard_g.Npz.{Text}
use grit_deploy_onboard_g.Npz.Archive.{Arrays, at_name, find_array}
use grit_deploy_onboard_g.Npz.Reading.{found-Ensures}
use grit_deploy_onboard_g.Npz.Motions.{
  require_shape, shaped_at, frames_of, bodies_of, RootFrame, Bodies, vec_at, quat_at, motion_of,
}

pub at_name-Always : (archive : Arrays) (name : Text) → Always (at_name archive name)
unfolding at_name
at_name-Always archive name = Ensures-weaken (found-Ensures (find_array archive name) _) λ _ _. tt

pub shaped_at-Ensures :
    (archive : Arrays) (name : Text) (expected : List ℕ)
    → Ensures (λ array. array.shape ≡ expected) (shaped_at archive name expected)
unfolding shaped_at require_shape
shaped_at-Ensures archive name expected =
    Ensures-bind (at_name-Always archive name)
      λ array _. Ensures-bind (Ensures-require _ _) λ _ same. returned (list_eq→eq _ _ same)

pub frames_of-Ensures :
    (shape : List ℕ) → Ensures (λ t. (shape ≡ t ∷ dof ∷ []) × (0 < t)) (frames_of shape)
unfolding frames_of
frames_of-Ensures [] = thrown
frames_of-Ensures (t ∷ []) = thrown
frames_of-Ensures (t ∷ d ∷ []) = Ensures-bind (Ensures-require _ _) λ _ h.
    let e : d ≡ dof = ground arith in
    let some_frame : 0 < t = ground arith in returned (ap (λ k. t ∷ k ∷ []) e, some_frame)
frames_of-Ensures (t ∷ d ∷ e ∷ dims) = thrown

pub bodies_of-Ensures :
    (frames : ℕ) (shape : List ℕ)
    → Ensures (λ b. (shape ≡ frames ∷ b ∷ 3 ∷ []) × (1 ≤ b)) (bodies_of frames shape)
unfolding bodies_of
bodies_of-Ensures frames [] = thrown
bodies_of-Ensures frames (t ∷ []) = thrown
bodies_of-Ensures frames (t ∷ b ∷ []) = thrown
bodies_of-Ensures frames (t ∷ b ∷ c ∷ []) = Ensures-bind (Ensures-require _ _) λ _ h.
    let e : t ≡ frames = ground arith in
    let f : c ≡ 3 = ground arith in
    let some_body : 1 ≤ b = ground arith in returned (rw (e, f) refl, some_body)
bodies_of-Ensures frames (t ∷ b ∷ c ∷ d ∷ dims) = thrown

-- Frame `t` of an array with 3 or 4 numbers for each body.
pub frame_le :
    (t frames count : ℕ)
    → t < frames
    → 1 ≤ count
    → (t * count * 3 + 3 ≤ frames * (count * (3 * 1)))
      × (t * count * 4 + 4 ≤ frames * (count * (4 * 1)))
frame_le t frames count lt some_body =
    let row = row_le t frames count lt in
    let three : frames * (count * (3 * 1)) ≡ frames * count * 3 = grind arith in
    let four : frames * (count * (4 * 1)) ≡ frames * count * 4 = grind arith in
    (omega (arith, row, three), omega (arith, row, four))

module _ {ℓ} {F : Type ℓ} where
  pub vec_at-Always : (values : List F) (i : ℕ) → i + 3 ≤ length values → Always (vec_at values i)
  unfolding vec_at
  vec_at-Always values i h = Ensures-bind (Ensures-at values i (omega arith)) λ _ _.
      Ensures-bind (Ensures-at values (i + 1) (omega arith))
        λ _ _. Ensures-bind (Ensures-at values (i + 2) (omega arith)) λ _ _. returned tt

  pub quat_at-Always : (values : List F) (i : ℕ) → i + 4 ≤ length values → Always (quat_at values i)
  unfolding quat_at
  quat_at-Always values i h = Ensures-bind (Ensures-at values i (omega arith)) λ _ _.
      Ensures-bind (Ensures-at values (i + 1) (omega arith)) λ _ _.
        Ensures-bind (Ensures-at values (i + 2) (omega arith))
          λ _ _. Ensures-bind (Ensures-at values (i + 3) (omega arith)) λ _ _. returned tt

  -- The sizes of the arrays of the bodies, over so many frames.
  pub record IsBodies (frames : ℕ) (b : Bodies F) : Type 0 where
    pub some_body : 1 ≤ b.count
    pub pos : length b.pos ≡ frames * (b.count * (3 * 1))
    pub quat : length b.quat ≡ frames * (b.count * (4 * 1))
    pub lin_vel : length b.lin_vel ≡ frames * (b.count * (3 * 1))
    pub ang_vel : length b.ang_vel ≡ frames * (b.count * (3 * 1))
    pub fits : frames * (b.count * (4 * 1)) < 2 ^ 64

  pub motion_of-IsMotion :
      (frames : ℕ) (fps : F) (joint_pos joint_vel : List F) (roots : List (RootFrame F))
      → 0 < frames
      → length joint_pos ≡ frames * (dof * 1)
      → length joint_vel ≡ frames * (dof * 1)
      → length roots ≡ frames
      → frames * (dof * 1) < 2 ^ 64
      → IsMotion (motion_of frames fps joint_pos joint_vel roots)
  unfolding motion_of
  motion_of-IsMotion frames fps joint_pos joint_vel roots some_frame pos vel e small = record {
    some_frame = some_frame;
    joint_pos = omega (arith, pos);
    joint_vel = omega (arith, vel);
    root_pos = length-map _ roots ∙ e;
    root_quat = length-map _ roots ∙ e;
    root_lin_vel = length-map _ roots ∙ e;
    root_ang_vel = length-map _ roots ∙ e;
    bounded = omega arith;
    estimated = λ (no : true ≡ false). absurd (cc);
  }
