-- ===== src/Tests/Values.antt =====
-- Test data for the models of g1_sim2real/src: whole numbers for floats, a text node for YAML, a small
-- motion and a small policy.
use grit_deploy_onboard_g.Prelude.{
  ℕ, ◌+◌, ◌-◌, ◌*◌, ◌/◌, Bool, true, false, List, [], ◌∷◌, refl, arith, replicate, ltb, leb,
  if◌then◌else◌, ◌==◌,
}
use grit_deploy_onboard_g.Floats.{Floats}
use grit_deploy_onboard_g.Geometry.{Vec3, Quat}
use grit_deploy_onboard_g.Segment.{Motion, ReferenceSegment}
use grit_deploy_onboard_g.Segment.Shape.{IsMotion, IsSegment}
use grit_deploy_onboard_g.Grit.{RobotState, VrPoseFrame, GritPolicy}
use grit_deploy_onboard_g.Locomotion.{LocomotionPolicy}
use grit_deploy_onboard_g.Locomotion.Control.{IsLocomotion}
use grit_deploy_onboard_g.Grit.Invariant.{IsJointMap, IsConfigured, IsPolicy, IsRobotState}

-- Whole numbers: a fraction is 0, and a turn is none.
instance abbrev pub whole : Floats ℕ
whole = record {
  decimal = λ m k. if k == 0 then m else 0;
  add = λ a b. a + b;
  sub = λ a b. a - b;
  mul = λ a b. a * b;
  div = λ a b. a / b;
  neg = λ a. a;
  abs = λ a. a;
  sqrt = λ a. a;
  sin = λ a. 0;
  cos = λ a. 1;
  acos = λ a. 0;
  atan2 = λ a b. 0;
  lt = ltb;
  le = leb;
  isfinite = λ a. true;
}

abbrev pub origin : Vec3 ℕ
origin = record { x = 0; y = 0; z = 0 }

abbrev pub upright : Quat ℕ
upright = record { w = 1; x = 0; y = 0; z = 0 }

abbrev pub still : Motion ℕ
still = record {
  frames = 1;
  fps = 50;
  joint_pos = replicate 29 3;
  joint_vel = replicate 29 0;
  root_pos = origin ∷ [];
  root_quat = upright ∷ [];
  root_lin_vel_b = origin ∷ [];
  root_ang_vel_b = origin ∷ [];
  exported_velocities = false;
}

pub still-IsMotion : IsMotion still
still-IsMotion = record {
  some_frame = ground arith;
  joint_pos = refl;
  joint_vel = refl;
  root_pos = refl;
  root_quat = refl;
  root_lin_vel = refl;
  root_ang_vel = refl;
  bounded = omega arith;
  estimated = λ h. omega arith;
}

-- Joints by pairs swapped, and the last in its place: its own inverse.
abbrev pub swapped : List ℕ
swapped =
    1 ∷ 0 ∷ 3 ∷ 2 ∷ 5 ∷ 4 ∷ 7 ∷ 6 ∷ 9 ∷ 8 ∷ 11 ∷ 10 ∷ 13 ∷ 12 ∷ 15 ∷ 14 ∷ 17 ∷ 16 ∷ 19 ∷ 18 ∷ 21
    ∷ 20 ∷ 23 ∷ 22 ∷ 25 ∷ 24 ∷ 27 ∷ 26 ∷ 28 ∷ []

pub swapped-IsJointMap : IsJointMap swapped
swapped-IsJointMap = record { size = refl; bounded = ground arith }

-- A segment of `n` equal frames.
abbrev pub held : ℕ → ℕ → ReferenceSegment ℕ
held n index = record {
  frames = n;
  index = index;
  joints = replicate (n * 29) 3;
  positions = replicate n origin;
  quaternions = replicate n upright;
  features = replicate (n * 70) 0;
}

abbrev pub policy_at : ReferenceSegment ℕ → Bool → GritPolicy ℕ
policy_at segment streaming = record {
  motion = still;
  default_motion = still;
  ref_from_controller = swapped;
  controller_from_ref = swapped;
  action_scale = replicate 29 2;
  encoder_offset = replicate 29 1;
  last_action = replicate 29 0;
  history =
      replicate 30 0
      ∷ replicate 30 0
      ∷ replicate 60 0
      ∷ replicate 290 0
      ∷ replicate 290 0
      ∷ replicate 290 0
      ∷ [];
  transition_steps = 20;
  segment = segment;
  playing_motion = false;
  vr_streaming = streaming;
  vr_anchor_joint = replicate 29 3;
  vr_anchor_position = origin;
  vr_anchor_quaternion = upright;
  vr_source_position = origin;
  vr_yaw_delta = upright;
  vr_transition_count = 0;
  motion_name = "still";
  motion_index = 0;
  motion_count = 1;
}

abbrev pub standing : RobotState ℕ
standing = record {
  seq = 1;
  receive_time_ns = 5;
  q = replicate 29 4;
  dq = replicate 29 0;
  quat = upright;
  gyro = origin;
  start = false;
  a = false;
  b = false;
  x = false;
  left = false;
  right = false;
  lx = 0;
  ly = 0;
  rx = 0;
  ry = 0;
}

pub standing-IsRobotState : IsRobotState standing
standing-IsRobotState = record { q = refl; dq = refl }

abbrev pub pose : VrPoseFrame ℕ
pose = record {
  root_position = origin;
  root_quaternion = upright;
  joint_position = replicate 29 7;
  starts_session = true;
  receive_time_ns = 9;
}

pub policy_at-IsConfigured :
    (segment : ReferenceSegment ℕ) (streaming : Bool) → IsConfigured (policy_at segment streaming)
policy_at-IsConfigured segment streaming = (
  still-IsMotion,
  still-IsMotion,
  swapped-IsJointMap,
  swapped-IsJointMap,
  refl,
  refl,
  omega arith,
)

pub policy_at-IsPolicy :
    (segment : ReferenceSegment ℕ) (streaming : Bool)
    → IsSegment segment
    → IsPolicy (policy_at segment streaming)
policy_at-IsPolicy segment streaming v = record {
  configured = policy_at-IsConfigured segment streaming;
  segment = v;
  action = refl;
  history = refl;
  anchor = λ h. refl;
}

pub held-IsSegment : IsSegment (held 21 4)
held-IsSegment = record {
  in_range = ground arith;
  joints = refl;
  positions = refl;
  quaternions = refl;
  features = refl;
}

-- A segment with twelve frames of future, and one with sixteen.
abbrev pub walking : GritPolicy ℕ
walking = policy_at (held 21 4) false

abbrev pub streaming : GritPolicy ℕ
streaming = policy_at (held 21 8) true

pub streaming-IsPolicy : IsPolicy streaming
streaming-IsPolicy = policy_at-IsPolicy (held 21 8) true (record {
  in_range = ground arith;
  joints = refl;
  positions = refl;
  quaternions = refl;
  features = refl;
})

pub walking-IsPolicy : IsPolicy walking
walking-IsPolicy = policy_at-IsPolicy (held 21 4) false held-IsSegment

abbrev pub walker : LocomotionPolicy ℕ
walker = record {
  default_motion = still;
  ref_from_controller = swapped;
  controller_from_ref = swapped;
  action_scale = replicate 29 2;
  last_action = replicate 29 1;
  previous_command = origin;
  history = replicate 384 6;
}

pub walker-IsLocomotion : IsLocomotion walker
walker-IsLocomotion = record {
  motion = still-IsMotion;
  ref = swapped-IsJointMap;
  controller = swapped-IsJointMap;
  scale = refl;
  action = refl;
}
