-- ===== src/Segment/Build.antt =====
-- `build_segment` (g1_npz_policy.cpp) turns a well-formed motion and a 29-joint anchor into a
-- well-formed segment.
use grit_deploy_onboard_g.Prelude.{
  if◌then◌else◌, ok, err, out_of_bounds, ◌^◌, ◌%◌, sym, drop, Ensures-split, Ensures-require, leb,
  ℕ, ◌+◌, ◌*◌, ◌<◌, ◌≡◌, refl, ap, ◌∙◌, arith, List, ◌++◌, map, length, take, length-append,
  length-map, length-take, All, Ensures, returned, Ensures-bind, Ensures-at, Ensures-slice,
  Ensures-map_m, Ensures-weaken, map_m,
}
use grit_deploy_onboard_g.Floats.{Floats}
use grit_deploy_onboard_g.Geometry.{Vec3, Quat}
use grit_deploy_onboard_g.Geometry.Totality.{mul_quat-Always, yaw_quat-Always}
use grit_deploy_onboard_g.Segment.{
  Motion, dof, feature_dim, below, concat, finite_difference_features, exported_row,
  segment_features, build_segment,
}
use grit_deploy_onboard_g.Segment.Transition.{
  All-joints, transition_joints, transition_frames, drop-front,
}
use grit_deploy_onboard_g.Segment.Shape.{
  IsMotion, IsSegment, below-lt, length-below, length-concat, length-finite_difference_features,
  align_frame-Always, length-exported_row,
}

-- The copies of the motion end within the segment.
in_place :
    (n frames : ℕ)
    → frames ≡ n
    → Ensures {A = Unit {0}} (λ _. Unit {0}) (if leb n frames then ok tt else err out_of_bounds)
in_place n frames e = Ensures-split (leb n frames) (λ _. returned tt) λ past. absurd (ground arith)

module _ {ℓ} {F : Type ℓ} ⦃fl : Floats F⦄ where
  module _ (source : Motion F) (v : IsMotion source) (steps : ℕ) (joints : List F)
      (positions : List (Vec3 F)) (quaternions aligned : List (Quat F))
      (ej : length joints ≡ (steps + source.frames) * dof)
      (ep : length positions ≡ steps + source.frames)
      (eq : length quaternions ≡ steps + source.frames) (ea : length aligned ≡ source.frames)
      (small : steps < 2 ^ 30) where
    exported_rows :
        Ensures
          (λ rows. length (concat rows) ≡ source.frames * feature_dim)
          (map_m (exported_row source aligned) (below source.frames))
    exported_rows =
        Ensures-weaken
          (Ensures-map_m (λ t. t < source.frames) (λ row. length row ≡ feature_dim) _ _
            (λ t h. length-exported_row source aligned t v ea h) (below-lt source.frames))
          λ rows h. omega (
            arith,
            length-concat feature_dim rows h.0,
            length-below source.frames,
            ap (λ (k : ℕ). k * feature_dim) h.1,
            ap (λ (k : ℕ). k * feature_dim) (length-below source.frames),
          )

    prefix_rows :
        (prefix_joints : List F)
        → length prefix_joints ≡ steps * dof
        → Ensures
            (λ xs. length xs ≡ steps * feature_dim)
            (finite_difference_features prefix_joints
              (take steps positions)
              (take steps quaternions)
              source.fps)
    prefix_rows prefix_joints h =
        let e : length (take steps positions) ≡ steps =
          omega (arith, length-take steps positions) in
        Ensures-weaken
          (length-finite_difference_features prefix_joints (take steps positions)
            (take steps quaternions) source.fps (omega (arith, ap (λ (k : ℕ). k * dof) e))
            (omega (arith, e, length-take steps quaternions)) (omega (arith, e)))
          λ xs r. omega (arith, ap (λ (k : ℕ). k * feature_dim) e)

    length-segment_features :
        Ensures
          (λ xs. length xs ≡ (steps + source.frames) * feature_dim)
          (segment_features source joints positions quaternions aligned steps)
    unfolding segment_features
    length-segment_features =
        Ensures-split source.exported_velocities
          (λ _. Ensures-bind (Ensures-require _ _) λ _ _.
            Ensures-bind (Ensures-slice joints 0 (steps * dof) (omega arith)) λ prefix_joints hp.
              Ensures-bind (prefix_rows prefix_joints hp.1) λ prefix hf.
                Ensures-bind exported_rows
                  λ rows hr. returned (omega (arith, length-append prefix (concat rows))))
          (λ no.
            Ensures-weaken
              (length-finite_difference_features joints positions quaternions source.fps
                (omega (arith, ap (λ (k : ℕ). k * dof) ep)) (omega arith)
                (let few = v.estimated no in omega arith))
              λ xs h. omega (arith, ap (λ (k : ℕ). k * feature_dim) ep, h))

  -- The last step of `build_segment`: the arrays put together from the two groups of frames.
  assembled :
      (source : Motion F) (steps : ℕ) (transition : List (List F × Vec3 F × Quat F))
      (aligned : List (Vec3 F × Quat F))
      → IsMotion source
      → All (λ f. length f.0 ≡ dof) transition
      → length transition ≡ steps
      → length aligned ≡ source.frames
      → let joints = concat (map (λ f. f.0) transition) ++ source.joint_pos in
        let positions = map (λ f. f.1) transition ++ map (λ a. a.0) aligned in
        let quaternions = map (λ f. f.2) transition ++ map (λ a. a.1) aligned in
        (length joints ≡ (steps + source.frames) * dof)
        × (length positions ≡ steps + source.frames)
        × (length quaternions ≡ steps + source.frames)
        × (length (map (λ (a : Vec3 F × Quat F). a.1) aligned) ≡ source.frames)
  assembled source steps transition aligned v ht hn ha = (
    omega (
      arith,
      length-append (concat (map (λ f. f.0) transition)) source.joint_pos,
      length-concat dof (map (λ f. f.0) transition) (All-joints transition ht),
      ap (λ (k : ℕ). k * dof) (length-map (λ f. f.0) transition ∙ hn),
    ),
    omega (
      arith,
      length-append (map (λ f. f.1) transition) (map (λ a. a.0) aligned),
      length-map (λ f. f.1) transition,
      length-map (λ a. a.0) aligned,
    ),
    omega (
      arith,
      length-append (map (λ f. f.2) transition) (map (λ a. a.1) aligned),
      length-map (λ f. f.2) transition,
      length-map (λ a. a.1) aligned,
    ),
    length-map (λ a. a.1) aligned ∙ ha,
  )

  -- With fewer than 2^30 transition steps, building a segment from a well-formed motion and a 29-joint
  -- anchor throws, or gives a segment whose arrays have the sizes of its frames, with the index at its
  -- first frame. Its joints are those of the transition, each frame blended from the anchor and the
  -- motion's first, followed by the whole motion's. It reads and writes nothing out of bounds.
  pub build_segment-IsSegment :
      (source : Motion F) (anchor_joint : List F) (anchor_pos : Vec3 F) (anchor_quat : Quat F)
      (steps : ℕ)
      → IsMotion source
      → length anchor_joint ≡ dof
      → steps < 2 ^ 30
      → Ensures
          (λ s.
            IsSegment s
            × (s.index ≡ 0)
            × (s.frames ≡ steps + source.frames)
            × (s.joints
                ≡ concat (transition_joints anchor_joint (take dof source.joint_pos) steps)
                  ++ source.joint_pos)
            × (drop (steps * dof) s.joints ≡ source.joint_pos))
          (build_segment source anchor_joint anchor_pos anchor_quat steps)
  unfolding build_segment
  build_segment-IsSegment source anchor_joint anchor_pos anchor_quat steps v h small =
      let whole : (steps + source.frames) % 2 ^ 64 ≡ steps + source.frames =
        omega (arith, v.bounded) in
      Ensures-bind (yaw_quat-Always anchor_quat) λ _ _.
        Ensures-bind (Ensures-at source.root_quat 0 (omega arith)) λ _ _.
          Ensures-bind (yaw_quat-Always _) λ _ _. Ensures-bind (mul_quat-Always _ _) λ yaw_delta _.
            Ensures-bind (Ensures-at source.root_pos 0 (omega arith)) λ first_pos _.
              Ensures-bind
                (Ensures-map_m (λ t. t < source.frames) (λ _. Unit {0}) _ _
                  (λ t. align_frame-Always yaw_delta anchor_pos first_pos source t v)
                  (below-lt source.frames))
                λ aligned ha.
                  Ensures-bind (Ensures-at aligned 0 (omega (arith, length-below source.frames)))
                    λ first _.
                      Ensures-bind (Ensures-slice source.joint_pos 0 dof (omega arith))
                        λ first_joints hj. Ensures-bind (Ensures-require _ _) λ _ _.
                          Ensures-bind (Ensures-require _ _) λ _ _.
                            Ensures-bind (Ensures-require _ _) λ _ _.
                              Ensures-bind
                                (transition_frames anchor_joint first_joints anchor_pos anchor_quat
                                  first steps _ h hj.1 (omega (arith, whole)))
                                λ transition ht.
                                  let (ej, ep, eq, ea) =
                                    assembled source steps transition aligned v ht.0 ht.1
                                      (ha.1 ∙ length-below source.frames) in
                                  Ensures-bind (in_place _ _ whole) λ _ _.
                                    Ensures-bind
                                      (length-segment_features source v steps _ _ _ _ ej ep eq ea
                                        small)
                                      λ features hf. returned (
                                        record {
                                          in_range = omega (arith, whole);
                                          joints = ej ∙ sym (ap (λ (k : ℕ). k * dof) whole);
                                          positions = ep ∙ sym whole;
                                          quaternions = eq ∙ sym whole;
                                          features =
                                              hf ∙ sym (ap (λ (k : ℕ). k * feature_dim) whole);
                                        },
                                        refl,
                                        whole,
                                        ap (λ xss. concat xss ++ source.joint_pos)
                                            (ht.2
                                              ∙ ap (λ xs. transition_joints anchor_joint xs steps)
                                                  hj.0),
                                        drop-front transition source.joint_pos steps ht.0 ht.1,
                                      )
