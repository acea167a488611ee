-- ===== src/Loop/Surroundings.antt =====
-- The control loop with its transport and its loader of motions (g1_sim2real/src/g1_npz_policy.cpp,
-- `main`): what a round meets, from what waits at the socket and from the file that has been read.
use mathlib.Core.Path.{subst}
use grit_deploy_onboard_g.Prelude.{
  ℕ, ◌^◌, ◌<◌, ◌≡◌, Bool, true, Option, none, some, List, length, All, inl, inr, Result, Ensures,
  returned, thrown, Ensures-bind,
}
use grit_deploy_onboard_g.Floats.{Floats}
use grit_deploy_onboard_g.Geometry.Totality.{Always}
use grit_deploy_onboard_g.Segment.{Motion}
use grit_deploy_onboard_g.Segment.Shape.{IsMotion}
use grit_deploy_onboard_g.Grit.{RobotState, VrPoseFrame}
use grit_deploy_onboard_g.Grit.Invariant.{IsRobotState}
use grit_deploy_onboard_g.Yaml.{Yaml, YamlFloats}
use grit_deploy_onboard_g.Yaml.Reads.{IsYaml}
use grit_deploy_onboard_g.Stateful.Outcome.{Outcome, gave, threw}
use grit_deploy_onboard_g.Transport.Receive.{Waiting, receive}
use grit_deploy_onboard_g.Transport.Received.{IsReceived, receive-IsReceived}
use grit_deploy_onboard_g.Npz.Motions.{load_file}
use grit_deploy_onboard_g.Npz.Reading.{open_archive-Always}
use grit_deploy_onboard_g.Npz.Loaded.{load_motion-IsMotion}
use grit_deploy_onboard_g.Loop.{VrOperatorInput, Inputs}
use grit_deploy_onboard_g.Loop.Invariant.{IsInputs}

-- `loaded_file` holds the bytes that `read_file` has given, where the future is ready.
pub record Surroundings {ℓ} (F : Type ℓ) : Type ℓ where
  pub stop_signal : Bool
  pub stop_after_receive : Bool
  pub waiting : Waiting
  pub vr_input : VrOperatorInput F
  pub vr_frames : List (VrPoseFrame F)
  pub last_pose_ns : ℕ
  pub current_ns : ℕ
  pub request_sent : Bool
  pub loaded_file : Option (List ℕ)

module _ {ℓ κ} {N : Type κ} {F : Type ℓ} ⦃fl : Floats F⦄ ⦃yaml : Yaml N⦄ ⦃floats : YamlFloats N F⦄
    (crc32 : ℕ → List ℕ → ℕ) (yaml_load : List ℕ → Result N)
    (inflate : List ℕ → ℕ → Option (List ℕ)) (of_f4 of_f8 : List ℕ → F) where
  abbrev pub finish_load : Option (List ℕ) → Option (Result (Motion F))
  finish_load none = none
  finish_load (some file) = some (load_file crc32 inflate of_f4 of_f8 file)

  -- What a round meets, with the state of the last round.
  unfoldable pub gather_inputs : RobotState F → Surroundings F → Inputs F
  gather_inputs state s = record {
    stop_signal = s.stop_signal;
    stop_after_receive = s.stop_after_receive;
    received = receive crc32 yaml_load of_f4 s.waiting state;
    vr_input = s.vr_input;
    vr_frames = s.vr_frames;
    last_pose_ns = s.last_pose_ns;
    current_ns = s.current_ns;
    request_sent = s.request_sent;
    load_done = finish_load s.loaded_file;
  }

came-IsRobotState {ℓ} :
    {F : Type ℓ} ⦃fl : Floats F⦄ {s : RobotState F} {E : RobotState F → Type 0}
    (outcome : RobotState F × Result Bool)
    → Outcome (IsReceived s) E outcome
    → Ensures (λ came. came ≡ true → IsRobotState outcome.0) outcome.1
came-IsRobotState outcome (gave (inl h)) = returned (λ _. h.1)
came-IsRobotState outcome (gave (inr h)) = returned (λ (came : _ ≡ true). absurd (cc))
came-IsRobotState outcome (threw h) = thrown

some_injective {ℓ} : {A : Type ℓ} {a b : A} → some a ≡ some b → a ≡ b
some_injective e = cc

module _ {ℓ κ} {N : Type κ} {F : Type ℓ} ⦃fl : Floats F⦄ ⦃yaml : Yaml N⦄ ⦃floats : YamlFloats N F⦄
    (law : IsYaml yaml) (crc32 : ℕ → List ℕ → ℕ) (yaml_load : List ℕ → Result N)
    (loads : (text : List ℕ) → Always (yaml_load text)) (inflate : List ℕ → ℕ → Option (List ℕ))
    (of_f4 of_f8 : List ℕ → F) where
  load_file-IsMotion : (file : List ℕ) → Ensures IsMotion (load_file crc32 inflate of_f4 of_f8 file)
  unfolding load_file
  load_file-IsMotion file =
      Ensures-bind (open_archive-Always crc32 inflate file)
        λ archive _. load_motion-IsMotion of_f4 of_f8 archive

  finish_load-IsMotion :
      (file : Option (List ℕ)) (result : Result (Motion F))
      → finish_load crc32 yaml_load inflate of_f4 of_f8 file ≡ some result
      → Ensures IsMotion result
  finish_load-IsMotion none result e = cc
  finish_load-IsMotion (some file) result e =
      subst (Ensures IsMotion) (some_injective e) (load_file-IsMotion file)

  -- What a round of the control loop relies on is what its transport and its loader give: for any state,
  -- any datagrams shorter than 2^32 bytes and any bytes of a motion's file, the received state has its
  -- sizes where one came, and a motion that is loaded has the sizes that the policy reads. YAML's loader
  -- returns or throws, and so do yaml-cpp's conversions.
  pub gather_inputs-IsInputs :
      (state : RobotState F) (s : Surroundings F)
      → All (λ d. length d.bytes < 2 ^ 32) s.waiting.datagrams
      → IsInputs (gather_inputs crc32 yaml_load inflate of_f4 of_f8 state s)
  unfolding gather_inputs
  gather_inputs-IsInputs state s small = record {
    receives =
        came-IsRobotState _
          (receive-IsReceived law crc32 yaml_load loads of_f4 s.waiting state small);
    loads = λ result e. finish_load-IsMotion s.loaded_file result e;
  }
