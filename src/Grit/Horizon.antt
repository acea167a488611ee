-- ===== src/Grit/Horizon.antt =====
-- The VR stream of `GritPolicy` (g1_npz_policy.cpp): each appended frame lengthens the future by one
-- frame, the padding loop ends, and the segment stays bounded.
use grit_deploy_onboard_g.Prelude.{
  ap, ◌++◌, ok, if◌then◌else◌, ℕ, zero, suc, ◌+◌, ◌≤◌, ◌<◌, ◌≡◌, ◌⊎◌, inl, inr, refl, ◌∙◌, arith,
  true, false, not, List, min, max, ltb, leb, ltb→lt, leb→le, Bool-cases, Ensures, returned,
  Ensures-bind, Ensures-split, Ensures-weaken,
}
use grit_deploy_onboard_g.Floats.{Floats, ◌/F◌, float}
use grit_deploy_onboard_g.Geometry.{Vec3, Quat}
use grit_deploy_onboard_g.Geometry.Totality.{
  Always, normalized-Always, mul_quat-Always, rotate-Always, slerp-Always,
}
use grit_deploy_onboard_g.Segment.{ReferenceSegment, zip_with, blend}
use grit_deploy_onboard_g.Segment.Shape.{IsSegment}
use grit_deploy_onboard_g.Grit.{
  VrPoseFrame, GritPolicy, last_context_offset, high_watermark, future_horizon,
}
use grit_deploy_onboard_g.Grit.Stream.{
  align_vr, blend_vr, accept_vr_frame, append_vr_frame, pad_horizon,
}
use grit_deploy_onboard_g.Grit.Invariant.{IsPolicy}
use grit_deploy_onboard_g.Grit.Growth.{
  future_horizon-eq, Extends, vr_joints, append_stream_frame_lem,
}

module _ {ℓ} {F : Type ℓ} ⦃fl : Floats F⦄ where
  segment-IsPolicy :
      (p : GritPolicy F) (t : ReferenceSegment F)
      → IsPolicy p
      → IsSegment t
      → IsPolicy (record p { segment = t })
  segment-IsPolicy p t v w = record {
    configured = v.configured;
    segment = w;
    action = v.action;
    history = v.history;
    anchor = v.anchor;
  }

  -- The padding loop ends within its fuel, with 13 frames of future at least, and adds no frame
  -- where the future is long enough already.
  pub pad_horizon-IsPolicy :
      (fuel : ℕ) (p : GritPolicy F)
      → IsPolicy p
      → p.vr_streaming ≡ true
      → last_context_offset < fuel + min (future_horizon p.segment) last_context_offset
      → Ensures
          (λ q.
            IsPolicy q
            × (q.vr_streaming ≡ true)
            × (future_horizon q.segment ≡ max last_context_offset (future_horizon p.segment))
            × (last_context_offset ≤ future_horizon p.segment → q.segment ≡ p.segment)
            × (q.playing_motion ≡ p.playing_motion)
            × ((frame : VrPoseFrame F) → vr_joints frame q ≡ vr_joints frame p))
          (pad_horizon fuel p)
  unfolding pad_horizon
  pad_horizon-IsPolicy zero p v on h = absurd (omega arith)
  pad_horizon-IsPolicy (suc fuel) p v on h =
      elim (Bool-cases (ltb (future_horizon p.segment) last_context_offset)) [
        | inl more ↦ rw more (
            Ensures-bind
              (append_stream_frame_lem
                (λ q.
                  IsPolicy q
                  × (q.vr_streaming ≡ true)
                  × (future_horizon q.segment ≡ suc (future_horizon p.segment))
                  × (q.playing_motion ≡ p.playing_motion)
                  × ((frame : VrPoseFrame F) → vr_joints frame q ≡ vr_joints frame p))
                _ _ _ p v.segment (ground arith)
                (λ t x _. (segment-IsPolicy p t v x.valid, on, x.horizon, refl, λ frame. refl)))
              λ q hq.
                let lt = ltb→lt _ _ more in
                Ensures-weaken (pad_horizon-IsPolicy fuel q hq.0 hq.1 (omega (arith, hq.2))) λ r hr.
                  (
                    hr.0,
                    hr.1,
                    omega (arith, hr.2, hq.2),
                    λ far. absurd (omega arith),
                    hr.4 ∙ hq.3,
                    λ frame. hr.5 frame ∙ hq.4 frame,
                  ))
        | inr done ↦ rw done (returned (v, on, ground arith, λ far. refl, refl, λ frame. refl))
      ]

  align_vr-Always : (frame : VrPoseFrame F) (p : GritPolicy F) → Always (align_vr frame p)
  unfolding align_vr
  align_vr-Always frame p = Ensures-bind (normalized-Always _) λ _ _.
      Ensures-bind (rotate-Always _ _) λ _ _. Ensures-bind (mul_quat-Always _ _) λ _ _. returned tt

  blend_vr-count :
      (frame : VrPoseFrame F) (pose : Vec3 F × Quat F) (p : GritPolicy F)
      → Ensures
          (λ r.
            (r.0 ≡ record p { vr_transition_count = p.vr_transition_count + 1 })
            × (r.1
                ≡ zip_with
                    (blend (float (p.vr_transition_count + 1) /F float (max 1 p.transition_steps)))
                    p.vr_anchor_joint
                    frame.joint_position))
          (blend_vr frame pose p)
  unfolding blend_vr
  blend_vr-count frame pose p = Ensures-bind (slerp-Always _ _ _) λ _ _. returned (refl, refl)

  placed-joints :
      (frame : VrPoseFrame F) (pose : Vec3 F × Quat F) (p : GritPolicy F)
      → Ensures
          (λ r.
            (count : ℕ) × (r.0 ≡ record p { vr_transition_count = count })
            × (r.1 ≡ vr_joints frame p))
          (if ltb p.vr_transition_count p.transition_steps
            then blend_vr frame pose p
            else ok (p, frame.joint_position, pose.0, pose.1))
  placed-joints frame pose p = elim (Bool-cases (ltb p.vr_transition_count p.transition_steps)) [
    | inl h ↦
        rw h (
          Ensures-weaken (blend_vr-count frame pose p) λ r e. (p.vr_transition_count + 1, e.0, e.1))
    | inr h ↦ rw h (returned (p.vr_transition_count, refl, refl))
  ]

  -- Taking a frame changes the segment and the transition count alone.
  accept_vr_frame_lem {κ} :
      (P : GritPolicy F → Type κ) (frame : VrPoseFrame F) (p : GritPolicy F)
      → IsSegment p.segment
      → future_horizon p.segment < high_watermark
      → ((count : ℕ) (t : ReferenceSegment F)
          → Extends p.segment t
          → (rest : List F) × (t.joints ≡ rest ++ vr_joints frame p)
          → P (record p { vr_transition_count = count; segment = t }))
      → Ensures P (accept_vr_frame frame p)
  unfolding accept_vr_frame
  accept_vr_frame_lem P frame p v near k = Ensures-bind (align_vr-Always frame p) λ pose _.
      Ensures-bind (placed-joints frame pose p)
        λ (q, joints, position, quaternion) (count, e, placed). rw e (
          append_stream_frame_lem P joints position quaternion
            (record p { vr_transition_count = count }) v near
            λ t x (rest, ends). k count t x (rest, ends ∙ ap (λ xs. rest ++ xs) placed))

  bounded_frames :
      (s t : ReferenceSegment F)
      → IsSegment s
      → Extends s t
      → future_horizon s < high_watermark
      → t.frames ≤ 49
  bounded_frames s t v x h =
      omega (arith, x, future_horizon-eq s v.in_range, future_horizon-eq t x.valid.in_range)

  -- A frame is taken exactly when VR is streaming and less than 16 frames of future are left; a frame
  -- that is not taken changes nothing. A taken frame lengthens the future by one, and leaves at most
  -- 49 frames in the segment, however long the stream runs; the segment's joints end with the frame's,
  -- which a transition blends from the anchor.
  pub append_vr_frame-IsPolicy :
      (frame : VrPoseFrame F) (p : GritPolicy F)
      → IsPolicy p
      → Ensures
          (λ r.
            IsPolicy r.0
            × (r.0.vr_streaming ≡ p.vr_streaming)
            × (r.0.playing_motion ≡ p.playing_motion)
            × ((r.1 ≡ false)
                  × (r.0 ≡ p)
                  × ((p.vr_streaming ≡ false) ⊎ (high_watermark ≤ future_horizon p.segment))
                ⊎ (r.1 ≡ true)
                  × (p.vr_streaming ≡ true)
                  × (future_horizon p.segment < high_watermark)
                  × (future_horizon r.0.segment ≡ suc (future_horizon p.segment))
                  × (r.0.segment.frames ≤ 49)
                  × ((rest : List F) × (r.0.segment.joints ≡ rest ++ vr_joints frame p))))
          (append_vr_frame frame p)
  unfolding append_vr_frame
  append_vr_frame-IsPolicy frame p v =
      Ensures-split (not p.vr_streaming)
        (λ idle. returned (v, refl, refl, inl (refl, refl, inl (ground arith))))
        λ on.
          Ensures-split (leb high_watermark (future_horizon p.segment))
            (λ far. returned (v, refl, refl, inl (refl, refl, inr (leb→le _ _ far))))
            λ near.
              let lt : future_horizon p.segment < high_watermark = ground arith in
              Ensures-bind
                (accept_vr_frame_lem
                  (λ q.
                    IsPolicy q
                    × (q.vr_streaming ≡ p.vr_streaming)
                    × (q.playing_motion ≡ p.playing_motion)
                    × Extends p.segment q.segment
                    × ((rest : List F) × (q.segment.joints ≡ rest ++ vr_joints frame p)))
                  frame p v.segment lt
                  (λ count t x ends. (
                    record {
                      configured = v.configured;
                      segment = x.valid;
                      action = v.action;
                      history = v.history;
                      anchor = v.anchor;
                    },
                    refl,
                    refl,
                    x,
                    ends,
                  )))
                λ q hq. returned (
                  hq.0,
                  hq.1,
                  hq.2,
                  inr (
                    refl,
                    ground arith,
                    lt,
                    hq.3.horizon,
                    bounded_frames p.segment q.segment v.segment hq.3 lt,
                    hq.4,
                  ),
                )
