-- ===== src/Grit/Growth.antt =====
-- A frame that is appended to the segment of `GritPolicy` (g1_npz_policy.cpp, `append_stream_frame`).
use grit_deploy_onboard_g.Prelude.{
  ◌++◌, if◌then◌else◌, ℕ, suc, ◌+◌, ◌-◌, ◌*◌, ◌<◌, ◌≡◌, inl, inr, refl, arith, List, [], ◌∷◌, min,
  max, ltb, ltb→lt, ==→eq, Bool-cases, length, length-append, length-drop, Ensures, returned,
  Ensures-bind, Ensures-require,
}
use grit_deploy_onboard_g.Floats.{Floats, ◌/F◌, float}
use grit_deploy_onboard_g.Geometry.{Vec3, Quat}
use grit_deploy_onboard_g.Geometry.Totality.{normalized-Always}
use grit_deploy_onboard_g.Segment.{ReferenceSegment, dof, feature_dim, zip_with, blend}
use grit_deploy_onboard_g.Segment.Shape.{IsSegment, length-finite_difference_features}
use grit_deploy_onboard_g.Grit.{
  VrPoseFrame, GritPolicy, high_watermark, keep_history, future_horizon, trim,
}
use grit_deploy_onboard_g.Grit.Stream.{append_stream_frame}

module _ {ℓ} {F : Type ℓ} where
  pub future_horizon-eq :
      (s : ReferenceSegment F) → s.index < s.frames → future_horizon s ≡ s.frames - 1 - s.index
  unfolding future_horizon
  future_horizon-eq s h = ground arith

  -- The sizes that `trim` keeps; the features are computed anew afterwards.
  record IsTrimmed (s t : ReferenceSegment F) : Type 0 where
    index : t.index ≡ min s.index keep_history
    frames : t.frames + s.index ≡ s.frames + t.index
    joints : length t.joints ≡ t.frames * dof
    positions : length t.positions ≡ t.frames
    quaternions : length t.quaternions ≡ t.frames

  trim-IsTrimmed : (s : ReferenceSegment F) → IsSegment s → IsTrimmed s (trim s)
  unfolding trim
  trim-IsTrimmed s v = elim (Bool-cases (ltb keep_history s.index)) [
    | inl h ↦
        let n = s.index - keep_history in
        let lt = ltb→lt _ _ h in
        rw h (
          omega (
            arith,
            length-drop (n * dof) s.joints,
            length-drop n s.positions,
            length-drop n s.quaternions,
          ))
    | inr h ↦ rw h (ground arith)
  ]

module _ {ℓ} {F : Type ℓ} ⦃fl : Floats F⦄ where
  -- A segment one frame longer, with at most 32 played frames in front of its index.
  pub record Extends (s t : ReferenceSegment F) : Type 0 where
    pub valid : IsSegment t
    pub index : t.index ≡ min s.index keep_history
    pub horizon : future_horizon t ≡ suc (future_horizon s)

  longer-Extends :
      (s t r : ReferenceSegment F)
      → IsSegment s
      → IsTrimmed s t
      → r.frames ≡ t.frames + 1
      → r.index ≡ t.index
      → length r.joints ≡ r.frames * dof
      → length r.positions ≡ r.frames
      → length r.quaternions ≡ r.frames
      → length r.features ≡ r.frames * feature_dim
      → Extends s r
  longer-Extends s t r v w ef ei hj hp hq hf =
      let valid : IsSegment r = omega (arith, v, w) in
      record {
        valid = valid;
        index = omega (arith, w);
        horizon =
            omega (arith, w, future_horizon-eq s v.in_range, future_horizon-eq r valid.in_range);
      }

  -- The joints of a VR frame: blended from the anchor in a transition.
  abbrev pub placed_joints : ℕ → ℕ → List F → List F → List F
  placed_joints count steps anchor joints =
      if ltb count steps
      then zip_with (blend (float (count + 1) /F float (max 1 steps))) anchor joints
      else joints

  abbrev pub vr_joints : VrPoseFrame F → GritPolicy F → List F
  vr_joints frame p =
      placed_joints p.vr_transition_count p.transition_steps p.vr_anchor_joint frame.joint_position

  pub append_stream_frame_lem {κ} :
      (P : GritPolicy F → Type κ) (joints : List F) (position : Vec3 F) (quaternion : Quat F)
      (p : GritPolicy F)
      → IsSegment p.segment
      → future_horizon p.segment < high_watermark
      → ((t : ReferenceSegment F)
          → Extends p.segment t
          → (rest : List F) × (t.joints ≡ rest ++ joints)
          → P (record p { segment = t }))
      → Ensures P (append_stream_frame joints position quaternion p)
  unfolding append_stream_frame
  append_stream_frame_lem P joints position quaternion p v near k =
      let s = p.segment in
      let ahead = future_horizon-eq p.segment v.in_range in
      let w = trim-IsTrimmed s v in
      let t = trim s in
      Ensures-bind (Ensures-require _ _) λ _ sized.
        Ensures-bind (normalized-Always quaternion) λ unit _.
          let joined = length-append t.joints joints in
          let placed = length-append t.positions (position ∷ []) in
          let turned = length-append t.quaternions (unit ∷ []) in
          let e = ==→eq (length joints) dof sized in
          Ensures-bind
            (length-finite_difference_features _ _ _ _ (omega (arith, joined, placed, e, w))
              (omega (arith, turned, placed, w)) (omega (arith, placed, w, v, ahead)))
            λ features hf. returned (
              k _
                (longer-Extends s t _ v w refl refl (omega (arith, joined, e, w))
                  (omega (arith, placed, w)) (omega (arith, turned, w))
                  (omega (arith, hf, placed, w)))
                (t.joints, refl))
