-- ===== src/Vr/Frames.antt =====
-- The frames that `poll_pose_frames` (g1_sim2real/src/vr_motion_client.cpp) gives.
use grit_deploy_onboard_g.Prelude.{
  ℕ, ◌*◌, ◌%◌, ◌^◌, ◌<◌, ◌≡◌, refl, arith, Bool, true, false, not, ◌||◌, Option, none, some, List,
  [], ◌∷◌, length, length-take, length-drop, drop, All, All-append, ap₂, ◌∙◌, if-split, ◌>>=◌,
  all_of, ◌==◌, ==→eq, Result, Ensures, returned, Ensures-bind, Ensures-split, catch-Returns,
  Returns, returns,
}
use grit_deploy_onboard_g.Floats.{Floats, ◌/F◌, ◌<F◌}
use grit_deploy_onboard_g.Geometry.{Quat, quat_norm}
use grit_deploy_onboard_g.Geometry.Totality.{Always}
use grit_deploy_onboard_g.Segment.{dof, below}
use grit_deploy_onboard_g.Segment.Shape.{below-lt}
use grit_deploy_onboard_g.Grit.{VrPoseFrame}
use grit_deploy_onboard_g.Yaml.{Yaml}
use grit_deploy_onboard_g.Yaml.Reads.{IsYaml}
use grit_deploy_onboard_g.Bridge.Arrays.Bounds.{read_elements-length, row_le}
use grit_deploy_onboard_g.Npz.Shapes.{vec_at-Always, quat_at-Always}
use grit_deploy_onboard_g.Vr.Poses.{
  Reply, failed, reply, Posed, expected_qpos_size, extend, Metadata, read_metadata, is_shaped,
  frame_of, push, read_frames, read_shaped, take_frames, read_reply, poll_replies, poll_pose_frames,
}

is_shaped-sized :
    (m : Metadata) (payload : List ℕ)
    → is_shaped m payload ≡ true
    → length payload ≡ m.count * (expected_qpos_size * 4)
unfolding is_shaped
is_shaped-sized m payload h =
    let small : m.count < 2 ^ 31 = ground arith in
    let count : extend m.count ≡ m.count = ground arith in
    let wide : extend m.qpos_size ≡ 36 = ground arith in
    let sized : (length payload == (extend m.count * extend m.qpos_size * 4 % 2 ^ 64)) ≡ true =
      ground arith in
    ==→eq _ _ sized ∙ ap₂ (λ a b. a * b * 4 % 2 ^ 64) count wide ∙ omega arith

Returns-bind {ℓ κ μ ν} :
    {A : Type ℓ} {B : Type κ} {P : A → Type μ} {Q : B → Type ν} {m : Result A} {f : A → Result B}
    → Returns P m
    → ((a : A) → P a → Returns Q (f a))
    → Returns Q (m >>= f)
Returns-bind (returns p) h = h _ p

module _ {ℓ} {F : Type ℓ} ⦃fl : Floats F⦄ where
  -- 29 joints, and a root quaternion that was divided by a norm of at least 10^-6.
  pub record IsPose (frame : VrPoseFrame F) : Type ℓ where
    pub joints : length frame.joint_position ≡ dof
    pub raw : Quat F
    pub not_zero : (quat_norm raw <F fl.decimal 1 6) ≡ false
    pub unit : frame.root_quaternion ≡ record {
      w = raw.w /F quat_norm raw;
      x = raw.x /F quat_norm raw;
      y = raw.y /F quat_norm raw;
      z = raw.z /F quat_norm raw;
    }

  abbrev ArePosed : Option (VrPoseFrame F) → Type ℓ
  ArePosed none = Unit
  ArePosed (some frame) = IsPose frame

  frame_of-ArePosed :
      (starts : Bool) (time index : ℕ) (qpos : List F)
      → length qpos ≡ expected_qpos_size
      → Ensures ArePosed (frame_of starts time index qpos)
  unfolding frame_of
  frame_of-ArePosed starts time index qpos e =
      Ensures-bind (vec_at-Always qpos 0 (omega arith)) λ position _.
        Ensures-bind (quat_at-Always qpos 3 (omega arith)) λ q _.
          Ensures-split (not (all_of fl.isfinite qpos) || (quat_norm q <F fl.decimal 1 6))
            (λ _. returned tt)
            λ h. returned (record {
              joints = omega (arith, length-take dof (drop 7 qpos), length-drop 7 qpos);
              raw = q;
              not_zero = ground arith;
              unit = refl;
            })

  push-All :
      (frame : Option (VrPoseFrame F)) (frames : List (VrPoseFrame F))
      → ArePosed frame
      → All IsPose frames
      → All IsPose (push frame frames)
  push-All none frames h all = all
  push-All (some frame) frames h all = (h, all)

  module _ (of_f4 : List ℕ → F) where
    read_frames-All :
        (starts : Bool) (time count : ℕ) (payload indices : List ℕ)
        → length payload ≡ count * (expected_qpos_size * 4)
        → All (λ i. i < count) indices
        → Ensures (All IsPose) (read_frames of_f4 starts time payload indices)
    unfolding read_frames
    read_frames-All starts time count payload [] e all = returned tt
    read_frames-All starts time count payload (index ∷ indices) e all =
        let row = row_le index count (expected_qpos_size * 4) all.0 in
        Ensures-bind
          (read_elements-length of_f4 4 payload (index * (expected_qpos_size * 4))
            expected_qpos_size (omega (arith, row, e)))
          λ qpos sized. Ensures-bind (frame_of-ArePosed starts time index qpos sized) λ frame h.
            Ensures-bind (read_frames-All starts time count payload indices e all.1)
              λ frames rest. returned (push-All frame frames h rest)

    abbrev AllPosed : Option (List (VrPoseFrame F)) → Type ℓ
    AllPosed none = Unit
    AllPosed (some frames) = All IsPose frames

    read_shaped-AllPosed :
        (m : Metadata) (time : ℕ) (payload : List ℕ)
        → Ensures AllPosed (read_shaped of_f4 m time payload)
    unfolding read_shaped
    read_shaped-AllPosed m time payload =
        Ensures-split (is_shaped m payload)
          (λ h.
            Ensures-bind
              (read_frames-All m.starts_session time m.count payload (below m.count)
                (is_shaped-sized m payload h) (below-lt m.count))
              λ frames all. returned all)
          λ _. returned tt

    take_frames-All :
        (more : Option (List (VrPoseFrame F))) (time : ℕ) (p : Posed F)
        → AllPosed more
        → All IsPose p.frames
        → All IsPose (take_frames of_f4 more time p).frames
    unfolding take_frames
    take_frames-All none time p h all = all
    take_frames-All (some more) time p h all = All-append IsPose p.frames more all h

    module _ {κ} {N : Type κ} ⦃yaml : Yaml N⦄ (law : IsYaml yaml) (yaml_load : List ℕ → Result N)
        (loads : (text : List ℕ) → Always (yaml_load text)) where
      read_metadata-Always : (metadata : N) → Always (read_metadata metadata)
      unfolding read_metadata
      read_metadata-Always metadata = Ensures-bind (law.child metadata "num_frames") λ _ _.
          Ensures-bind (law.child metadata "qpos_size")
            λ _ _. Ensures-bind (law.child metadata "start") λ _ _. returned tt

      read_reply-AllPosed :
          (header payload : List ℕ) (time : ℕ)
          → Ensures AllPosed (read_reply of_f4 yaml_load header payload time)
      unfolding read_reply
      read_reply-AllPosed header payload time = Ensures-bind (loads header) λ metadata _.
          Ensures-bind (read_metadata-Always metadata) λ m _. read_shaped-AllPosed m time payload

      poll_replies-All :
          (waiting : List Reply) (p : Posed F)
          → All IsPose p.frames
          → Returns (λ q. All IsPose q.frames) (poll_replies of_f4 yaml_load waiting p)
      unfolding poll_replies
      poll_replies-All [] p all = returns all
      poll_replies-All (failed ∷ waiting) p all = returns all
      poll_replies-All (reply header false payload time ∷ waiting) p all =
          if-split (Returns (λ q. All IsPose q.frames)) (length header == 0) (λ _. returns all)
            λ _. poll_replies-All waiting p all
      poll_replies-All (reply header true none time ∷ waiting) p all = returns all
      poll_replies-All (reply header true (some payload) time ∷ waiting) p all =
          if-split (Returns (λ q. All IsPose q.frames)) (length header == 0) (λ _. returns all)
            λ _.
              Returns-bind (catch-Returns none tt (read_reply-AllPosed header payload time))
                λ more h.
                  poll_replies-All waiting (take_frames of_f4 more time p)
                    (take_frames-All more time p h all)

      -- A poll of the pose replies never throws and never reads outside a payload, whatever waits at
      -- the socket, and each frame that it gives has 29 joint values and a root quaternion that was
      -- divided by its norm, which is not below 10^-6. YAML's loader and conversions return or throw.
      pub poll_pose_frames-IsPose :
          (waiting : List Reply) (last_ns : ℕ)
          → Returns (λ p. All IsPose p.frames) (poll_pose_frames of_f4 yaml_load waiting last_ns)
      unfolding poll_pose_frames
      poll_pose_frames-IsPose waiting last_ns = poll_replies-All waiting _ tt
