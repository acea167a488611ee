-- ===== src/Segment/Transition.antt =====
-- The transition in front of a motion (g1_npz_policy.cpp, the loop of `build_segment`).
use grit_deploy_onboard_g.Prelude.{
  ℕ, ◌*◌, ◌≤◌, ◌<◌, ◌≡◌, ap, ◌∙◌, arith, List, [], ◌∷◌, ◌++◌, map, length, drop, length-map,
  drop-append, All, ltb, err, out_of_bounds, if◌then◌else◌, Ensures, Ensures-split, Ensures-weaken,
  Ensures-map_m, Ensures-both, map_m-eq, map_m,
}
use grit_deploy_onboard_g.Floats.{Floats}
use grit_deploy_onboard_g.Geometry.{Vec3, Quat}
use grit_deploy_onboard_g.Segment.{dof, below, zip_with, concat, blend, transition_frame}
use grit_deploy_onboard_g.Segment.Shape.{
  below-lt, length-below, length-concat, mixed, length-transition_frame,
}

module _ {ℓ} {F : Type ℓ} ⦃fl : Floats F⦄ where
  pub All-joints :
      (fs : List (List F × Vec3 F × Quat F))
      → All (λ f. length f.0 ≡ dof) fs
      → All (λ xs. length xs ≡ dof) (map (λ f. f.0) fs)
  All-joints [] h = tt
  All-joints (f ∷ fs) h = (h.0, All-joints fs h.1)

  -- The joints of the transition: frame by frame, from the anchor to the motion's first frame.
  abbrev pub transition_joints : List F → List F → ℕ → List (List F)
  transition_joints anchor_joint first_joints steps =
      map (λ t. zip_with (blend (mixed steps t)) anchor_joint first_joints) (below steps)

  guarded_frame :
      (anchor_joint first_joints : List F) (anchor_pos : Vec3 F) (anchor_quat : Quat F)
      (first : Vec3 F × Quat F) (steps frames : ℕ)
      → length anchor_joint ≡ dof
      → length first_joints ≡ dof
      → steps ≤ frames
      → (t : ℕ) → t < steps
      → Ensures
          (λ f.
            (length f.0 ≡ dof) × (f.0 ≡ zip_with (blend (mixed steps t)) anchor_joint first_joints))
          (if ltb t frames
            then transition_frame anchor_joint anchor_pos anchor_quat first_joints first steps t
            else err out_of_bounds)
  guarded_frame anchor_joint first_joints anchor_pos anchor_quat first steps frames ha hj le t lt =
      Ensures-split (ltb t frames)
        (λ _.
          length-transition_frame anchor_joint anchor_pos anchor_quat first_joints first steps t ha
            hj)
        λ past. absurd (ground arith)

  -- The frames of the transition that are put together in `build_segment`.
  pub transition_frames :
      (anchor_joint first_joints : List F) (anchor_pos : Vec3 F) (anchor_quat : Quat F)
      (first : Vec3 F × Quat F) (steps frames : ℕ)
      → length anchor_joint ≡ dof
      → length first_joints ≡ dof
      → steps ≤ frames
      → Ensures
          (λ fs.
            All (λ f. length f.0 ≡ dof) fs
            × (length fs ≡ steps)
            × (map (λ f. f.0) fs ≡ transition_joints anchor_joint first_joints steps))
          (map_m
            (λ t.
              if ltb t frames
              then transition_frame anchor_joint anchor_pos anchor_quat first_joints first steps t
              else err out_of_bounds)
            (below steps))
  transition_frames anchor_joint first_joints anchor_pos anchor_quat first steps frames ha hj le =
      let blended =
        guarded_frame anchor_joint first_joints anchor_pos anchor_quat first steps frames ha hj
          le in
      Ensures-weaken
        (Ensures-both
          (Ensures-map_m (λ t. t < steps) (λ f. length f.0 ≡ dof) _ (below steps)
            (λ t lt. Ensures-weaken (blended t lt) λ f h. h.0) (below-lt steps))
          (map_m-eq (λ t. t < steps) (λ (f : List F × Vec3 F × Quat F). f.0) _ _ (below steps)
            (λ t lt. Ensures-weaken (blended t lt) λ f h. h.1) (below-lt steps)))
        λ fs h. (h.0.0, h.0.1 ∙ length-below steps, h.1)

  -- What stands in front of a list is dropped with it.
  pub drop-front :
      (fs : List (List F × Vec3 F × Quat F)) (joints : List F) (n : ℕ)
      → All (λ f. length f.0 ≡ dof) fs
      → length fs ≡ n
      → drop (n * dof) (concat (map (λ f. f.0) fs) ++ joints) ≡ joints
  drop-front fs joints n ht hn =
      let front = concat (map (λ f. f.0) fs) in
      let e : n * dof ≡ length front = omega (
        arith,
        length-concat dof (map (λ f. f.0) fs) (All-joints fs ht),
        ap (λ (k : ℕ). k * dof) (length-map (λ f. f.0) fs ∙ hn),
      ) in
      rw e (drop-append front joints)
