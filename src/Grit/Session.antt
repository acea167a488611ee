-- ===== src/Grit/Session.antt =====
-- Starting and stopping a VR session (g1_npz_policy.cpp, `GritPolicy::start_vr_session`, `stop_vr`).
use grit_deploy_onboard_g.Prelude.{
  List, ◌++◌, take, drop, ◌*◌, ℕ, suc, ◌+◌, ◌≤◌, ◌<◌, ◌≡◌, ◌⊎◌, inl, inr, refl, ap, ◌∙◌, arith,
  Bool, true, false, not, max, ok, Ensures, returned, Ensures-bind, Ensures-split, Ensures-at,
  Ensures-slice, Ensures-weaken, Ensures-require, Ensures-self, ◌>>=◌,
}
use grit_deploy_onboard_g.Floats.{Floats}
use grit_deploy_onboard_g.Geometry.Totality.{normalized-Always, mul_quat-Always, yaw_quat-Always}
use grit_deploy_onboard_g.Segment.{dof}
use grit_deploy_onboard_g.Grit.{
  VrPoseFrame, GritPolicy, last_context_offset, high_watermark, future_horizon,
}
use grit_deploy_onboard_g.Grit.Stream.{anchor_session, start_vr_session, stop_vr}
use grit_deploy_onboard_g.Grit.Invariant.{IsPolicy, last_frame-lt, return_default-IsPolicy}
use grit_deploy_onboard_g.Grit.Horizon.{pad_horizon-IsPolicy, append_vr_frame-IsPolicy}
use grit_deploy_onboard_g.Grit.Growth.{future_horizon-eq, placed_joints, vr_joints}

far_when_refused :
    {b : Bool} {n : ℕ} → ¬ (b ≡ false) → (b ≡ false) ⊎ (high_watermark ≤ n) → high_watermark ≤ n
far_when_refused on (inl idle) = absurd (on idle)
far_when_refused on (inr far) = far

module _ {ℓ} {F : Type ℓ} ⦃fl : Floats F⦄ where
  -- The joints of a session's first frame, blended from the present frame of the segment.
  abbrev pub first_joints : VrPoseFrame F → GritPolicy F → List F
  first_joints frame p =
      placed_joints 0 p.transition_steps (take dof (drop (p.segment.index * dof) p.segment.joints))
        frame.joint_position

  anchor_session-IsPolicy :
      (frame : VrPoseFrame F) (p : GritPolicy F)
      → IsPolicy p
      → Ensures
          (λ q.
            IsPolicy q
            × (q.vr_streaming ≡ true)
            × (q.playing_motion ≡ false)
            × (q.segment ≡ p.segment)
            × (vr_joints frame q ≡ first_joints frame p))
          (anchor_session frame p)
  unfolding anchor_session
  anchor_session-IsPolicy frame p v =
      let e = last_frame-lt p.segment.index p.segment.frames v.segment.in_range in
      Ensures-bind (Ensures-slice p.segment.joints _ dof (omega (arith, e, v.segment))) λ anchor ha.
        Ensures-bind (Ensures-at p.segment.positions _ (omega (arith, e, v.segment))) λ _ _.
          Ensures-bind (Ensures-at p.segment.quaternions _ (omega (arith, e, v.segment))) λ _ _.
            Ensures-bind (normalized-Always _) λ _ _. Ensures-bind (yaw_quat-Always _) λ _ _.
              Ensures-bind (yaw_quat-Always _) λ _ _. Ensures-bind (mul_quat-Always _ _) λ _ _.
                returned (
                  record {
                    configured = v.configured;
                    segment = v.segment;
                    action = v.action;
                    history = v.history;
                    anchor = λ h. ha.1;
                  },
                  refl,
                  refl,
                  refl,
                  ap (λ xs. placed_joints 0 p.transition_steps xs frame.joint_position)
                      (ha.0 ∙ ap (λ (i : ℕ). take dof (drop (i * dof) p.segment.joints)) e),
                )

  -- Starting a session throws or streams with 13 frames of future at least, so that every context row
  -- of the next step is a frame of its own; the padding loop ends. With less than 16 frames of future
  -- the first VR frame is appended, so that the segment's joints end with that frame's, blended from
  -- those of the present frame where a transition has steps; with more, the segment stays as it was.
  pub start_vr_session-IsPolicy :
      (frame : VrPoseFrame F) (p : GritPolicy F)
      → IsPolicy p
      → Ensures
          (λ q.
            IsPolicy q
            × (q.vr_streaming ≡ true)
            × (q.playing_motion ≡ false)
            × (last_context_offset ≤ future_horizon q.segment)
            × (future_horizon p.segment < high_watermark
                → future_horizon q.segment
                  ≡ suc (max last_context_offset (future_horizon p.segment)))
            × (future_horizon p.segment < high_watermark
                → (rest : List F) × (q.segment.joints ≡ rest ++ first_joints frame p))
            × (high_watermark ≤ future_horizon p.segment → q.segment ≡ p.segment))
          (start_vr_session frame p)
  unfolding start_vr_session
  start_vr_session-IsPolicy frame p v = Ensures-bind (Ensures-require _ _) λ _ _.
      Ensures-bind (anchor_session-IsPolicy frame p v) λ anchored ha.
        Ensures-bind
          (pad_horizon-IsPolicy (last_context_offset + 1) anchored ha.0 ha.1 (omega arith))
          λ padded hp. Ensures-bind (append_vr_frame-IsPolicy frame padded hp.0) λ appended hq.
            let e = ap future_horizon ha.3 in
            elim hq.3 [
              | inl (kept, same, why) ↦
                  let far = far_when_refused (λ idle. cc (hp.1, idle)) why in
                  let f = ap (λ (q : GritPolicy F). future_horizon q.segment) same in
                  returned (
                    hq.0,
                    hq.1 ∙ hp.1,
                    hq.2 ∙ hp.4 ∙ ha.2,
                    omega (arith, f, hp.2),
                    (λ near. absurd (omega (arith, far, e, hp.2))),
                    (λ near. absurd (omega (arith, far, e, hp.2))),
                    (λ h.
                        ap (λ (q : GritPolicy F). q.segment) same ∙ hp.3 (omega (arith, e)) ∙ ha.3),
                  )
              | inr (taken, on, near, longer, few, tail) ↦ returned (
                hq.0,
                hq.1 ∙ hp.1,
                hq.2 ∙ hp.4 ∙ ha.2,
                omega (arith, longer, hp.2),
                (λ h. omega (arith, longer, hp.2, e)),
                (λ h. (tail.0, tail.1 ∙ ap (λ xs. tail.0 ++ xs) (hp.5 frame ∙ ha.4))),
                (λ far. absurd (omega (arith, near, hp.2, e))),
              )
            ]

  pub stop_vr-IsPolicy :
      (p : GritPolicy F)
      → IsPolicy p
      → Ensures
          (λ q.
            IsPolicy q
            × (q.vr_streaming ≡ false)
            × (p.vr_streaming ≡ false → q ≡ p)
            × (p.vr_streaming ≡ true
                → (q.playing_motion ≡ false)
                  × (q.segment.index ≡ 0)
                  × (future_horizon q.segment + 1 ≡ p.transition_steps + p.default_motion.frames)))
          (stop_vr p)
  unfolding stop_vr
  stop_vr-IsPolicy p v =
      Ensures-split (not p.vr_streaming)
        (λ idle. returned (v, ground arith, (λ _. refl), λ on. absurd (ground arith)))
        λ on.
          Ensures-weaken
            (return_default-IsPolicy (record p { vr_streaming = false })
              (record {
                configured = v.configured;
                segment = v.segment;
                action = v.action;
                history = v.history;
                anchor = λ h. cc;
              }))
            λ q h. (
              h.0,
              h.2,
              (λ off. absurd (ground arith)),
              λ _. (
                h.1,
                h.3,
                omega (arith, h.3, h.4, future_horizon-eq q.segment h.0.segment.in_range),
              ),
            )

  -- Stopping a streaming session and starting the next one on the policy that this leaves drops the new
  -- session's first frame, if a transition has 16 steps or more: unless one of the two throws, the
  -- policy streams, and its segment is still the way back to the default pose.
  pub restart-drops_first_frame :
      (frame : VrPoseFrame F) (p : GritPolicy F)
      → IsPolicy p
      → p.vr_streaming ≡ true
      → high_watermark ≤ p.transition_steps
      → Ensures
          (λ r.
            (r.vr_streaming ≡ true)
            × (q : GritPolicy F) × (stop_vr p ≡ ok q)
            × (r.segment ≡ q.segment))
          (stop_vr p >>= λ q. start_vr_session frame q)
  restart-drops_first_frame frame p v on long =
      Ensures-bind (Ensures-self (stop_vr-IsPolicy p v)) λ q (h, stopped).
        Ensures-weaken (start_vr_session-IsPolicy frame q h.0)
          λ r t. (t.1, q, stopped, t.6 (omega (arith, h.3 on, v.configured.1.some_frame)))
