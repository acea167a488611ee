-- ===== src/Vr/Poses.antt =====
-- `poll_pose_frames` (g1_sim2real/src/vr_motion_client.cpp): the frames of the pose replies that wait.
use grit_deploy_onboard_g.Prelude.{
  ℕ, ◌+◌, ◌-◌, ◌*◌, ◌%◌, ◌^◌, Bool, true, false, not, ◌&&◌, ◌||◌, Option, none, some, List, [], ◌∷◌,
  ◌++◌, length, take, drop, ltb, ◌==◌, all_of, if◌then◌else◌, Result, ok, ◌>>=◌, catch,
}
use grit_deploy_onboard_g.Floats.{Floats, ◌/F◌, ◌<F◌}
use grit_deploy_onboard_g.Geometry.{Quat, quat_norm}
use grit_deploy_onboard_g.Segment.{dof, below}
use grit_deploy_onboard_g.Grit.{VrPoseFrame}
use grit_deploy_onboard_g.Yaml.{Yaml}
use grit_deploy_onboard_g.Bridge.Arrays.{read_elements}
use grit_deploy_onboard_g.Npz.Motions.{vec_at, quat_at}

-- What `receive_part` gives for the header of a reply, with whether a payload follows, the payload or an
-- exception in its place, and the clock after both.
pub data Reply : Type 0 where
  failed : Reply
  reply : List ℕ → Bool → Option (List ℕ) → ℕ → Reply

-- The poll's frames, and the client's `last_pose_receive_ns_`.
pub record Posed {ℓ} (F : Type ℓ) : Type ℓ where
  pub frames : List (VrPoseFrame F)
  pub last_pose_receive_ns : ℕ

-- 7 numbers of the root and one for each joint.
abbrev pub expected_qpos_size : ℕ
expected_qpos_size = 36

-- A 32-bit number with its sign, as a `size_t`.
abbrev pub extend : ℕ → ℕ
extend n = if ltb n (2 ^ 31) then n else n + (2 ^ 64 - 2 ^ 32)

-- The header of a reply.
pub record Metadata : Type 0 where
  pub count : ℕ
  pub qpos_size : ℕ
  pub starts_session : Bool

unfoldable pub read_metadata {κ} : {N : Type κ} ⦃yaml : Yaml N⦄ → N → Result Metadata
read_metadata ⦃yaml = yaml⦄ metadata = do
  count ← yaml.child metadata "num_frames"
  qpos_size ← yaml.child metadata "qpos_size"
  start ← yaml.child metadata "start"
  ok (record {
    count = yaml.int_or count 0;
    qpos_size = yaml.int_or qpos_size 0;
    starts_session = yaml.bool_or start false;
  })

-- A positive count, the expected number of values, and a payload of that size.
unfoldable pub is_shaped : Metadata → List ℕ → Bool
is_shaped m payload = not (
    ((m.count == 0) || not (ltb m.count (2 ^ 31)))
    || (not (m.qpos_size == expected_qpos_size)
        || not (length payload == (extend m.count * extend m.qpos_size * 4 % 2 ^ 64))))

module _ {ℓ} {F : Type ℓ} ⦃fl : Floats F⦄ where
  -- A frame, where its values are finite and its quaternion is not zero.
  unfoldable pub frame_of : Bool → ℕ → ℕ → List F → Result (Option (VrPoseFrame F))
  frame_of starts_session receive_ns index qpos = do
    position ← vec_at qpos 0
    q ← quat_at qpos 3
    let norm = quat_norm q
    let unit : Quat F = record {
      w = q.w /F norm;
      x = q.x /F norm;
      y = q.y /F norm;
      z = q.z /F norm;
    }
    let frame : VrPoseFrame F = record {
      root_position = position;
      root_quaternion = unit;
      joint_position = take dof (drop 7 qpos);
      starts_session = starts_session && (index == 0);
      receive_time_ns = receive_ns;
    }
    if not (all_of fl.isfinite qpos) || (norm <F fl.decimal 1 6) then ok none else ok (some frame)

  abbrev pub push : Option (VrPoseFrame F) → List (VrPoseFrame F) → List (VrPoseFrame F)
  push none frames = frames
  push (some frame) frames = frame ∷ frames

  module _ (of_f4 : List ℕ → F) where
    -- The loop over the frames of a reply: those that are kept.
    unfoldable pub read_frames : Bool → ℕ → List ℕ → List ℕ → Result (List (VrPoseFrame F))
    read_frames starts_session receive_ns payload [] = ok []
    read_frames starts_session receive_ns payload (index ∷ indices) = do
      qpos ← read_elements of_f4 4 payload (index * (expected_qpos_size * 4)) expected_qpos_size
      frame ← frame_of starts_session receive_ns index qpos
      frames ← read_frames starts_session receive_ns payload indices
      ok (push frame frames)

    -- A reply of the right shape, or nothing.
    unfoldable pub read_shaped : Metadata → ℕ → List ℕ → Result (Option (List (VrPoseFrame F)))
    read_shaped m receive_ns payload =
        let read = read_frames m.starts_session receive_ns payload (below m.count) in
        let frames = read >>= λ frames. ok (some frames) in
        if is_shaped m payload then frames else ok none

    -- `if (!frames.empty()) last_pose_receive_ns_ = receive_ns;`
    abbrev pub stamp : List (VrPoseFrame F) → ℕ → ℕ → ℕ
    stamp [] receive_ns last_ns = last_ns
    stamp (frame ∷ frames) receive_ns last_ns = receive_ns

    unfoldable pub take_frames : Option (List (VrPoseFrame F)) → ℕ → Posed F → Posed F
    take_frames none receive_ns p = p
    take_frames (some more) receive_ns p = record {
      frames = p.frames ++ more;
      last_pose_receive_ns = stamp (p.frames ++ more) receive_ns p.last_pose_receive_ns;
    }

    module _ {κ} {N : Type κ} ⦃yaml : Yaml N⦄ (yaml_load : List ℕ → Result N) where
      unfoldable pub read_reply : List ℕ → List ℕ → ℕ → Result (Option (List (VrPoseFrame F)))
      read_reply header payload receive_ns = do
        metadata ← yaml_load header
        m ← read_metadata metadata
        read_shaped m receive_ns payload

      -- The loop: an exception of `receive_part` or an empty header ends the poll, and a reply without
      -- a payload or that is not understood is passed over.
      unfoldable pub poll_replies : List Reply → Posed F → Result (Posed F)
      poll_replies [] p = ok p
      poll_replies (failed ∷ waiting) p = ok p
      poll_replies (reply header false payload time ∷ waiting) p = do
        let rest = poll_replies waiting p
        if length header == 0 then ok p else rest
      poll_replies (reply header true none time ∷ waiting) p = ok p
      poll_replies (reply header true (some payload) time ∷ waiting) p = do
        let taken = do
          more ← catch none (read_reply header payload time)
          poll_replies waiting (take_frames more time p)
        if length header == 0 then ok p else taken

      unfoldable pub poll_pose_frames : List Reply → ℕ → Result (Posed F)
      poll_pose_frames waiting last_ns =
          poll_replies waiting (record { frames = []; last_pose_receive_ns = last_ns })
