-- ===== src/Grit/Invariant.antt =====
-- What holds of a `GritPolicy` (g1_npz_policy.cpp) between two steps, and that the operations on its
-- segment keep it.
use grit_deploy_onboard_g.Prelude.{
  ℕ, ◌^◌, ◌*◌, ◌+◌, ◌≤◌, ◌<◌, ◌≡◌, refl, ◌∙◌, arith, Bool, true, false, ◌||◌, List, [], ◌∷◌, ◌++◌,
  map, min, ltb, ◌==◌, length, take, drop, replicate, length-append, length-take, length-drop,
  length-set, All, Ensures, returned, Ensures-bind, Ensures-if, Ensures-at, Ensures-slice,
}
use grit_deploy_onboard_g.Floats.{Floats, float}
use grit_deploy_onboard_g.Geometry.Totality.{replace_yaw-Always, length-rot6d}
use grit_deploy_onboard_g.Segment.{Motion, dof}
use grit_deploy_onboard_g.Segment.Shape.{IsMotion, IsSegment}
use grit_deploy_onboard_g.Segment.Build.{build_segment-IsSegment}
use grit_deploy_onboard_g.Grit.{RobotState, GritPolicy, last_frame, overwrite}
use grit_deploy_onboard_g.Grit.Playback.{
  restart, return_default, follow_robot_yaw_while_holding_default,
}

-- An index list as `source_indices` gives it.
pub record IsJointMap (indices : List ℕ) : Type 0 where
  pub size : length indices ≡ dof
  pub bounded : All (λ i. i < dof) indices

-- The parts of a policy that its constructor sets up, with a number of transition steps that is
-- configured within bounds.
abbrev pub IsConfigured {ℓ} : {F : Type ℓ} → GritPolicy F → Type 0
IsConfigured p =
    IsMotion p.motion
    × IsMotion p.default_motion
    × IsJointMap p.ref_from_controller
    × IsJointMap p.controller_from_ref
    × (length p.action_scale ≡ dof)
    × (length p.encoder_offset ≡ dof)
    × (p.transition_steps < 2 ^ 30)

-- The observation history holds ten samples of each of its six terms.
abbrev pub full_history : List ℕ
full_history = 30 ∷ 30 ∷ 60 ∷ 290 ∷ 290 ∷ 290 ∷ []

-- A policy that has been initialised from a robot state.
pub record IsPolicy {ℓ} {F : Type ℓ} (p : GritPolicy F) : Type 0 where
  pub configured : IsConfigured p
  pub segment : IsSegment p.segment
  pub action : length p.last_action ≡ dof
  pub history : map length p.history ≡ full_history
  pub anchor : p.vr_streaming ≡ true → length p.vr_anchor_joint ≡ dof

-- `q` streams or plays only where `p` did.
pub record IsCalmer {ℓ} {F : Type ℓ} (q p : GritPolicy F) : Type 0 where
  pub streams : q.vr_streaming ≡ true → p.vr_streaming ≡ true
  pub plays : q.playing_motion ≡ true → p.playing_motion ≡ true

pub record IsRobotState {ℓ} {F : Type ℓ} (s : RobotState F) : Type 0 where
  pub q : length s.q ≡ dof
  pub dq : length s.dq ≡ dof

pub last_frame-lt : (index frames : ℕ) → index < frames → min index (last_frame frames) ≡ index
last_frame-lt index frames h = ground arith

module _ {ℓ} {F : Type ℓ} ⦃fl : Floats F⦄ where
  -- A restart keeps everything but the segment and the two mode flags.
  pub restart-IsPolicy :
      (motion : Motion F) (playing : Bool) (p : GritPolicy F)
      → IsMotion motion
      → IsPolicy p
      → Ensures
          (λ q.
            IsPolicy q
            × (q.playing_motion ≡ playing)
            × (q.vr_streaming ≡ false)
            × (q.segment.index ≡ 0)
            × (q.segment.frames ≡ p.transition_steps + motion.frames)
            × (drop (p.transition_steps * dof) q.segment.joints ≡ motion.joint_pos))
          (restart motion playing p)
  unfolding restart
  restart-IsPolicy motion playing p vm v =
      let e = last_frame-lt p.segment.index p.segment.frames v.segment.in_range in
      Ensures-bind (Ensures-slice p.segment.joints _ dof (omega (arith, e))) λ anchor ha.
        Ensures-bind (Ensures-at p.segment.positions _ (omega (arith, e))) λ position _.
          Ensures-bind (Ensures-at p.segment.quaternions _ (omega (arith, e))) λ quaternion _.
            Ensures-bind
              (build_segment-IsSegment motion anchor position quaternion p.transition_steps vm ha.1
                v.configured.6)
              λ segment hs. returned (
                record {
                  configured = v.configured;
                  segment = hs.0;
                  action = v.action;
                  history = v.history;
                  anchor = λ h. cc;
                },
                refl,
                refl,
                hs.1,
                hs.2,
                hs.4,
              )

  -- Returning to the default pose keeps the invariant, and plays nothing.
  pub return_default-IsPolicy :
      (p : GritPolicy F)
      → IsPolicy p
      → Ensures
          (λ q.
            IsPolicy q
            × (q.playing_motion ≡ false)
            × (q.vr_streaming ≡ false)
            × (q.segment.index ≡ 0)
            × (q.segment.frames ≡ p.transition_steps + p.default_motion.frames)
            × (drop (p.transition_steps * dof) q.segment.joints ≡ p.default_motion.joint_pos))
          (return_default p)
  unfolding return_default
  return_default-IsPolicy p v = restart-IsPolicy p.default_motion false p v.configured.1 v

  length-overwrite :
      (xs : List F) (i : ℕ) (values : List F)
      → i + length values ≤ length xs
      → length (overwrite xs i values) ≡ length xs
  unfolding overwrite
  length-overwrite xs i values h = omega (
    arith,
    length-append (take i xs) (values ++ drop (i + length values) xs),
    length-append values (drop (i + length values) xs),
    length-take i xs,
    length-drop (i + length values) xs,
  )

  length-rest :
      (orientation : List F) (zero_value : F)
      → length orientation ≡ 6
      → length (replicate dof zero_value ++ (orientation ++ replicate 6 zero_value)) ≡ 41
  length-rest orientation z h = omega (
    arith,
    length-append (replicate dof z) (orientation ++ replicate 6 z),
    length-append orientation (replicate 6 z),
  )

  -- Turning the held frame changes no size, index or flag.
  pub follow-IsPolicy :
      (state : RobotState F) (p : GritPolicy F)
      → IsPolicy p
      → Ensures
          (λ q.
            IsPolicy q
            × (q.segment.index ≡ p.segment.index)
            × (q.segment.frames ≡ p.segment.frames)
            × (q.playing_motion ≡ p.playing_motion)
            × (q.vr_streaming ≡ p.vr_streaming)
            × (q.motion ≡ p.motion)
            × (q.transition_steps ≡ p.transition_steps))
          (follow_robot_yaw_while_holding_default state p)
  unfolding follow_robot_yaw_while_holding_default
  follow-IsPolicy state p v =
      Ensures-if
        (p.playing_motion
          || (p.vr_streaming
              || ((p.segment.frames == 0) || ltb (p.segment.index + 1) p.segment.frames)))
        (returned (v, refl, refl, refl, refl, refl, refl))
        (Ensures-bind (Ensures-at p.segment.quaternions _ (omega arith)) λ held _.
          Ensures-bind (replace_yaw-Always held state.quat) λ turned _.
            Ensures-bind (length-rot6d turned) λ orientation ho. returned (
              record {
                configured = v.configured;
                segment = record {
                  in_range = v.segment.in_range;
                  joints = v.segment.joints;
                  positions = v.segment.positions;
                  quaternions = length-set _ _ _ ∙ v.segment.quaternions;
                  features =
                      length-overwrite _ _ _ (omega (arith, length-rest orientation (float 0) ho))
                      ∙ v.segment.features;
                };
                action = v.action;
                history = v.history;
                anchor = v.anchor;
              },
              refl,
              refl,
              refl,
              refl,
              refl,
              refl,
            ))
