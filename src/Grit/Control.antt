-- ===== src/Grit/Control.antt =====
-- `GritPolicy::step` and `initialize_default` (g1_npz_policy.cpp): from a policy and a robot state of
-- the right sizes they give 29 joint targets and a policy of the right sizes, or throw.
use grit_deploy_onboard_g.Prelude.{
  ap, ap₂, drop, ℕ, zero, suc, ◌+◌, ◌*◌, ◌≤◌, ◌<◌, ◌≡◌, refl, sym, ◌∙◌, arith, true, false, List,
  [], ◌∷◌, map, min, ltb, ◌==◌, Bool-cases, inl, inr, ltb→lt, ==→eq, length, Result, Ensures,
  returned, Ensures-bind, Ensures-if, Ensures-at, Ensures-slice, Ensures-map_m, Ensures-weaken,
  Ensures-require,
}
use grit_deploy_onboard_g.Floats.{Floats}
use grit_deploy_onboard_g.Geometry.{Vec3}
use grit_deploy_onboard_g.Geometry.Totality.{Always, mul_quat-Always, rotate-Always, length-rot6d}
use grit_deploy_onboard_g.Segment.{Motion, ReferenceSegment, dof, feature_dim, zip_with, vec_values}
use grit_deploy_onboard_g.Segment.Shape.{IsSegment, length-zip_with, length-concat}
use grit_deploy_onboard_g.Segment.Build.{build_segment-IsSegment}
use grit_deploy_onboard_g.Grit.{
  RobotState, GritPolicy, history_length, context_offsets, last_frame, append_histories,
}
use grit_deploy_onboard_g.Grit.Playback.{
  play_motion, push_proprio, push_proprio_times, initialize_default, advance, reference_context,
  infer, step,
}
use grit_deploy_onboard_g.Grit.Invariant.{
  IsCalmer, IsConfigured, IsPolicy, IsRobotState, last_frame-lt, restart-IsPolicy,
  return_default-IsPolicy, follow-IsPolicy,
}
use grit_deploy_onboard_g.Grit.Buffers.{
  term_sizes, history_sizes, length-gather, append_histories-fill, append_histories_full,
}

last_frame-min : (i frames : ℕ) → 0 < frames → min i (last_frame frames) < frames
last_frame-min i frames h = ground arith

module _ {ℓ} {F : Type ℓ} ⦃fl : Floats F⦄ where
  -- Every context row lies within the features of the segment.
  context_in_range :
      (s : ReferenceSegment F) (offset : ℕ)
      → IsSegment s
      → min (s.index + offset) (last_frame s.frames) * feature_dim + feature_dim ≤ length s.features
  context_in_range s offset v =
      omega (arith, last_frame-min (s.index + offset) s.frames (omega arith))

  terms_sized :
      (gravity : Vec3 F) (state : RobotState F) (orientation joints velocities action : List F)
      → length orientation ≡ 6
      → length joints ≡ dof
      → length velocities ≡ dof
      → length action ≡ dof
      → map length (
          vec_values state.gyro
          ∷ vec_values gravity
          ∷ orientation
          ∷ joints
          ∷ velocities
          ∷ action
          ∷ [])
        ≡ term_sizes
  unfolding vec_values
  terms_sized gravity state orientation joints velocities action ho hj hv ha = rw (ho, hj, hv, ha)

  -- One observation changes the history alone, by one sample of each term.
  push_proprio_lem {κ} :
      (P : GritPolicy F → Type κ) (state : RobotState F) (p : GritPolicy F)
      → IsRobotState state
      → IsConfigured p
      → IsSegment p.segment
      → length p.last_action ≡ dof
      → ((terms : List (List F))
          → map length terms ≡ term_sizes
          → P (record p { history = append_histories p.history terms }))
      → Ensures P (push_proprio state p)
  unfolding push_proprio
  push_proprio_lem P state p vs vc vg va k =
      let e = last_frame-lt p.segment.index p.segment.frames vg.in_range in
      Ensures-bind (rotate-Always _ _) λ gravity _.
        Ensures-bind (Ensures-at p.segment.quaternions _ (omega (arith, e))) λ reference _.
          Ensures-bind (mul_quat-Always _ _) λ relative _.
            Ensures-bind (length-rot6d relative) λ orientation ho.
              Ensures-bind (length-gather state.q _ vs.q vc.2) λ q_ref hq.
                Ensures-bind (length-gather state.dq _ vs.dq vc.2) λ dq_ref hd. returned (
                  k _ (
                    terms_sized gravity state orientation _ dq_ref p.last_action ho
                      (omega (
                        arith,
                        length-zip_with fl.sub q_ref p.default_motion.joint_pos,
                        vc.1.some_frame,
                        vc.1.joint_pos,
                      ))
                      hd va))

  push_proprio-IsPolicy :
      (state : RobotState F) (p : GritPolicy F)
      → IsRobotState state
      → IsPolicy p
      → Ensures
          (λ q.
            IsPolicy q
            × (q.segment ≡ p.segment)
            × (q.playing_motion ≡ p.playing_motion)
            × (q.vr_streaming ≡ p.vr_streaming))
          (push_proprio state p)
  push_proprio-IsPolicy state p vs v =
      push_proprio_lem _ state p vs v.configured v.segment v.action λ terms h. (
        record {
          configured = v.configured;
          segment = v.segment;
          action = v.action;
          history = append_histories_full term_sizes p.history terms v.history h;
          anchor = v.anchor;
        },
        refl,
        refl,
        refl,
      )

  -- The next frame is one of the segment's; a motion that has been played gives way to the default.
  advance-IsPolicy :
      (p : GritPolicy F) → IsPolicy p → Ensures (λ q. IsPolicy q × IsCalmer q p) (advance p)
  unfolding advance
  advance-IsPolicy p v = elim (Bool-cases (ltb (p.segment.index + 1) p.segment.frames)) [
    | inl h ↦ rw h (
        returned (
          record {
            configured = v.configured;
            segment = record {
              in_range = ltb→lt _ _ h;
              joints = v.segment.joints;
              positions = v.segment.positions;
              quaternions = v.segment.quaternions;
              features = v.segment.features;
            };
            action = v.action;
            history = v.history;
            anchor = v.anchor;
          },
          record { streams = λ on. on; plays = λ on. on },
        ))
    | inr h ↦ rw h (
        Ensures-if p.playing_motion
          (Ensures-weaken (return_default-IsPolicy p v)
            (λ q t. (t.0, record { streams = λ on. cc (t.2); plays = λ on. cc (t.1) })))
          (returned (v, record { streams = λ on. on; plays = λ on. on })))
  ]

  reference_context-length :
      (s : ReferenceSegment F)
      → IsSegment s
      → Ensures (λ xs. length xs ≡ 9 * feature_dim) (reference_context s)
  unfolding reference_context
  reference_context-length s v =
      Ensures-bind
        (Ensures-map_m (λ _. Unit {0}) (λ xs. length xs ≡ feature_dim) _ context_offsets
          (λ offset _.
            Ensures-weaken (Ensures-slice s.features _ feature_dim (context_in_range s offset v))
              (λ xs h. h.1))
          (omega arith))
        λ rows h. returned (omega (arith, length-concat feature_dim rows h.0, h.1))

  length-target :
      (p : GritPolicy F) (raw : List F)
      → IsConfigured p
      → length raw ≡ dof
      → length (
          zip_with fl.sub
            (zip_with fl.add (zip_with fl.mul raw p.action_scale) p.default_motion.joint_pos)
            p.encoder_offset)
        ≡ dof
  length-target p raw v h =
      let scaled = zip_with fl.mul raw p.action_scale in
      let placed = zip_with fl.add scaled p.default_motion.joint_pos in
      omega (
        arith,
        length-zip_with fl.mul raw p.action_scale,
        length-zip_with fl.add scaled p.default_motion.joint_pos,
        length-zip_with fl.sub placed p.encoder_offset,
        v.1.some_frame,
        v.1.joint_pos,
        v.4,
        v.5,
      )

  module _ (run : List F → List F → Result (List F))
      (safe : (r h : List F) → Always (run r h)) where
    length-infer : (r h : List F) → Ensures (λ xs. length xs ≡ dof) (infer run r h)
    unfolding infer
    length-infer r h = Ensures-bind (safe r h) λ actions _.
        Ensures-bind (Ensures-require (length actions == dof) _)
          λ _ e. returned (==→eq (length actions) dof e)

    -- With the flags: a step starts neither a motion nor a stream.
    pub step-IsCalmer :
        (state : RobotState F) (p : GritPolicy F)
        → IsRobotState state
        → IsPolicy p
        → Ensures (λ r. IsPolicy r.0 × (length r.1 ≡ dof) × IsCalmer r.0 p) (step run state p)
    unfolding step
    step-IsCalmer state p vs v = Ensures-bind (advance-IsPolicy p v) λ advanced va.
        Ensures-bind (follow-IsPolicy state advanced va.0) λ followed vf.
          Ensures-bind (push_proprio-IsPolicy state followed vs vf.0) λ pushed vp.
            Ensures-bind (reference_context-length pushed.segment vp.0.segment) λ reference _.
              Ensures-bind (length-infer reference _) λ raw hr.
                Ensures-bind (Ensures-require _ _) λ _ _.
                  Ensures-bind
                    (length-gather _ _ (length-target pushed raw vp.0.configured hr)
                      vp.0.configured.3)
                    λ target ht. returned (
                      record {
                        configured = vp.0.configured;
                        segment = vp.0.segment;
                        action = hr;
                        history = vp.0.history;
                        anchor = vp.0.anchor;
                      },
                      ht,
                      record {
                        streams = λ on. va.1.streams (sym vf.4 ∙ (sym vp.3 ∙ on));
                        plays = λ on. va.1.plays (sym vf.3 ∙ (sym vp.2 ∙ on));
                      },
                    )

    -- From a policy and a robot state of the right sizes, `step` throws or gives 29 joint targets and a
    -- policy of the right sizes; it reads no array out of bounds, provided that the inference library
    -- does not.
    pub step-IsPolicy :
        (state : RobotState F) (p : GritPolicy F)
        → IsRobotState state
        → IsPolicy p
        → Ensures (λ r. IsPolicy r.0 × (length r.1 ≡ dof)) (step run state p)
    step-IsPolicy state p vs v = Ensures-weaken (step-IsCalmer state p vs v) (λ r h. (h.0, h.1))

  -- A policy whose history holds `n` samples.
  record IsFilling (n : ℕ) (p : GritPolicy F) : Type 0 where
    configured : IsConfigured p
    segment : IsSegment p.segment
    action : length p.last_action ≡ dof
    history : map length p.history ≡ history_sizes n term_sizes
    idle : p.vr_streaming ≡ false
    quiet : p.playing_motion ≡ false

  push_proprio_times-IsPolicy :
      (k n : ℕ) (state : RobotState F) (p : GritPolicy F)
      → IsRobotState state
      → n + k ≡ history_length
      → IsFilling n p
      → Ensures
          (λ q. IsPolicy q × (q.vr_streaming ≡ false) × (q.playing_motion ≡ false))
          (push_proprio_times k state p)
  unfolding push_proprio_times
  push_proprio_times-IsPolicy zero n state p vs e v =
      let full : n ≡ history_length = omega arith in
      returned (
        record {
          configured = v.configured;
          segment = v.segment;
          action = v.action;
          history = rw full at v.history;
          anchor = λ h. cc (v.idle);
        },
        v.idle,
        v.quiet,
      )
  push_proprio_times-IsPolicy (suc k) n state p vs e v =
      Ensures-bind
        (push_proprio_lem (IsFilling (suc n)) state p vs v.configured v.segment v.action λ terms h.
          record {
            configured = v.configured;
            segment = v.segment;
            action = v.action;
            history =
                append_histories-fill n term_sizes p.history terms (omega arith) (omega arith)
                  v.history h;
            idle = v.idle;
            quiet = v.quiet;
          })
        λ q vq. push_proprio_times-IsPolicy k (suc n) state q vs (omega arith) vq

  -- With the flags: the policy stands.
  pub initialize_default-idle :
      (state : RobotState F) (p : GritPolicy F)
      → IsRobotState state
      → IsConfigured p
      → Ensures
          (λ q. IsPolicy q × (q.vr_streaming ≡ false) × (q.playing_motion ≡ false))
          (initialize_default state p)
  unfolding initialize_default
  initialize_default-idle state p vs v =
      Ensures-bind (length-gather state.q _ vs.q v.2) λ anchor ha.
        Ensures-bind
          (Ensures-at p.default_motion.root_pos 0 (omega (arith, v.1.some_frame, v.1.root_pos)))
          λ root _.
            Ensures-bind
              (build_segment-IsSegment p.default_motion anchor root state.quat p.transition_steps
                v.1 ha v.6)
              λ segment hs. push_proprio_times-IsPolicy history_length 0 state _ vs refl (record {
                configured = v;
                segment = hs.0;
                action = refl;
                history = refl;
                idle = refl;
                quiet = refl;
              })

  -- Whatever its segment and history were, a policy that is configured with fewer than 2^30 transition
  -- steps and initialised at a robot state throws or satisfies the invariant, with ten samples in its
  -- history.
  pub initialize_default-IsPolicy :
      (state : RobotState F) (p : GritPolicy F)
      → IsRobotState state
      → IsConfigured p
      → Ensures IsPolicy (initialize_default state p)
  initialize_default-IsPolicy state p vs v =
      Ensures-weaken (initialize_default-idle state p vs v) (λ q h. h.0)

  -- `play_motion` throws or keeps the invariant and starts the selected motion: the new segment, at
  -- its first frame, has the frames of the transition and of the selected motion, and its joints
  -- behind the transition are that motion's.
  pub play_motion-IsPolicy :
      (state : RobotState F) (p : GritPolicy F)
      → IsPolicy p
      → Ensures
          (λ q.
            IsPolicy q
            × (q.playing_motion ≡ true)
            × (q.vr_streaming ≡ false)
            × (q.segment.index ≡ 0)
            × (q.segment.frames ≡ p.transition_steps + p.motion.frames)
            × (drop (p.transition_steps * dof) q.segment.joints ≡ p.motion.joint_pos))
          (play_motion state p)
  unfolding play_motion
  play_motion-IsPolicy state p v = Ensures-bind (follow-IsPolicy state p v) λ q vq.
      Ensures-weaken (restart-IsPolicy q.motion true q vq.0.configured.0 vq.0) λ r h. (
        h.0,
        h.1,
        h.2,
        h.3,
        h.4 ∙ ap₂ (λ (n : ℕ) (m : Motion F). n + m.frames) vq.6 vq.5,
        ap (λ (n : ℕ). drop (n * dof) r.segment.joints) (sym vq.6)
            ∙ h.5
            ∙ ap (λ (m : Motion F). m.joint_pos) vq.5,
      )
