-- ===== src/Tests/Npz.antt =====
-- Tests of reading motions and states (g1_sim2real/src/npz_reader.cpp, g1_npz_policy.cpp).
use Prim.Native.String.{String}
use grit_deploy_onboard_g.Prelude.{
  refl, ℕ, ◌+◌, ◌*◌, ◌<◌, ◌^◌, ◌≡◌, arith, true, false, Option, none, some, List, [], ◌∷◌, ◌++◌,
  length, replicate, ◌==◌, if◌then◌else◌, Result, ok, Ensures, returned,
}
use grit_deploy_onboard_g.Geometry.Totality.{Always}
use grit_deploy_onboard_g.Segment.Shape.{IsMotion}
use grit_deploy_onboard_g.Grit.Invariant.{IsRobotState}
use grit_deploy_onboard_g.Yaml.{Yaml, YamlFloats, same_text}
use grit_deploy_onboard_g.Yaml.Reads.{IsYaml, IsYamlFloats}
use grit_deploy_onboard_g.Stateful.Outcome.{Outcome}
use grit_deploy_onboard_g.Wire.{magic}
use grit_deploy_onboard_g.Bridge.Arrays.Bounds.{product}
use grit_deploy_onboard_g.Transport.{Command}
use grit_deploy_onboard_g.Transport.Packing.{pack_command, read_back, read_back-pack_command}
use grit_deploy_onboard_g.Transport.Receive.{Waiting, receive}
use grit_deploy_onboard_g.Transport.Received.{IsReceived, receive-IsReceived}
use grit_deploy_onboard_g.Npz.{NpyArray, as_float}
use grit_deploy_onboard_g.Npz.Archive.{Arrays, open_archive}
use grit_deploy_onboard_g.Npz.Motions.{
  load_motion, joint_pos_name, joint_vel_name, fps_name, body_pos_name, body_quat_name,
  body_lin_vel_name, body_ang_vel_name,
}
use grit_deploy_onboard_g.Npz.Sizes.{as_float-length}
use grit_deploy_onboard_g.Npz.Reading.{open_archive-Always}
use grit_deploy_onboard_g.Npz.Loaded.{load_motion-IsMotion}
use grit_deploy_onboard_g.Loop.Invariant.{IsInputs}
use grit_deploy_onboard_g.Loop.Polling.{no_input}
use grit_deploy_onboard_g.Loop.Surroundings.{Surroundings, gather_inputs, gather_inputs-IsInputs}
use grit_deploy_onboard_g.Tests.Values.{whole, standing}

-- A file with one stored array "fps" of shape (1, 2); its checksum is 7.
abbrev small_file : List ℕ
small_file =
    80 ∷ 75 ∷ 3 ∷ 4 ∷ 20 ∷ 0 ∷ 0 ∷ 0 ∷ 0 ∷ 0 ∷ 0 ∷ 0 ∷ 0 ∷ 0 ∷ 7 ∷ 0 ∷ 0 ∷ 0 ∷ 78 ∷ 0 ∷ 0 ∷ 0 ∷ 78
    ∷ 0 ∷ 0 ∷ 0 ∷ 7 ∷ 0 ∷ 0 ∷ 0 ∷ 102 ∷ 112 ∷ 115 ∷ 46 ∷ 110 ∷ 112 ∷ 121 ∷ 147 ∷ 78 ∷ 85 ∷ 77 ∷ 80
    ∷ 89 ∷ 1 ∷ 0 ∷ 60 ∷ 0 ∷ 123 ∷ 39 ∷ 100 ∷ 101 ∷ 115 ∷ 99 ∷ 114 ∷ 39 ∷ 58 ∷ 32 ∷ 39 ∷ 60 ∷ 102
    ∷ 52 ∷ 39 ∷ 44 ∷ 32 ∷ 39 ∷ 102 ∷ 111 ∷ 114 ∷ 116 ∷ 114 ∷ 97 ∷ 110 ∷ 95 ∷ 111 ∷ 114 ∷ 100 ∷ 101
    ∷ 114 ∷ 39 ∷ 58 ∷ 32 ∷ 70 ∷ 97 ∷ 108 ∷ 115 ∷ 101 ∷ 44 ∷ 32 ∷ 39 ∷ 115 ∷ 104 ∷ 97 ∷ 112 ∷ 101
    ∷ 39 ∷ 58 ∷ 32 ∷ 40 ∷ 49 ∷ 44 ∷ 32 ∷ 50 ∷ 41 ∷ 44 ∷ 32 ∷ 125 ∷ 10 ∷ 1 ∷ 0 ∷ 0 ∷ 0 ∷ 2 ∷ 0 ∷ 0
    ∷ 0 ∷ 80 ∷ 75 ∷ 1 ∷ 2 ∷ 20 ∷ 0 ∷ 20 ∷ 0 ∷ 0 ∷ 0 ∷ 0 ∷ 0 ∷ 0 ∷ 0 ∷ 0 ∷ 0 ∷ 7 ∷ 0 ∷ 0 ∷ 0 ∷ 78 ∷ 0
    ∷ 0 ∷ 0 ∷ 78 ∷ 0 ∷ 0 ∷ 0 ∷ 7 ∷ 0 ∷ 0 ∷ 0 ∷ 0 ∷ 0 ∷ 0 ∷ 0 ∷ 0 ∷ 0 ∷ 0 ∷ 0 ∷ 0 ∷ 0 ∷ 0 ∷ 0 ∷ 0 ∷ 0
    ∷ 102 ∷ 112 ∷ 115 ∷ 46 ∷ 110 ∷ 112 ∷ 121 ∷ 80 ∷ 75 ∷ 5 ∷ 6 ∷ 0 ∷ 0 ∷ 0 ∷ 0 ∷ 1 ∷ 0 ∷ 1 ∷ 0 ∷ 53
    ∷ 0 ∷ 0 ∷ 0 ∷ 115 ∷ 0 ∷ 0 ∷ 0 ∷ 0 ∷ 0 ∷ []

abbrev seven : ℕ → List ℕ → ℕ
seven crc bytes = 7

abbrev no_stream : List ℕ → ℕ → Option (List ℕ)
no_stream bytes size = none

abbrev pub first : List ℕ → ℕ
first [] = 0
first (b ∷ bytes) = b

open_archive-Always_example : Always (open_archive seven no_stream small_file)
open_archive-Always_example = open_archive-Always seven no_stream small_file

abbrev pair : NpyArray
pair = record {
  dtype = 60 ∷ 102 ∷ 52 ∷ [];
  shape = 1 ∷ 2 ∷ [];
  bytes = 1 ∷ 0 ∷ 0 ∷ 0 ∷ 2 ∷ 0 ∷ 0 ∷ 0 ∷ [];
  fortran_order = false;
}

as_float-length_example :
    Ensures
      (λ out. (length out ≡ product pair.shape) × (product pair.shape < 2 ^ 64))
      (as_float first first pair)
as_float-length_example = as_float-length first first pair

abbrev f4_array : List ℕ → ℕ → ℕ → NpyArray
f4_array shape n v = record {
  dtype = 60 ∷ 102 ∷ 52 ∷ [];
  shape = shape;
  bytes = replicate (n * 4) v;
  fortran_order = false;
}

abbrev arrays : Arrays
arrays =
    (fps_name, f4_array (1 ∷ []) 1 50)
    ∷ (joint_pos_name, f4_array (1 ∷ 29 ∷ []) 29 1)
    ∷ (joint_vel_name, f4_array (1 ∷ 29 ∷ []) 29 0)
    ∷ (body_pos_name, f4_array (1 ∷ 1 ∷ 3 ∷ []) 3 1)
    ∷ (body_quat_name, f4_array (1 ∷ 1 ∷ 4 ∷ []) 4 1)
    ∷ (body_lin_vel_name, f4_array (1 ∷ 1 ∷ 3 ∷ []) 3 0)
    ∷ (body_ang_vel_name, f4_array (1 ∷ 1 ∷ 3 ∷ []) 3 0)
    ∷ []

load_motion-IsMotion_example : Ensures IsMotion (load_motion first first arrays)
load_motion-IsMotion_example = load_motion-IsMotion first first arrays

abbrev child : ℕ → String → ℕ
child n key =
    if same_text key "q"
    then 2
    else if same_text key "dq"
    then 3
    else if same_text key "quat_wxyz"
    then 4
    else if same_text key "gyro"
    then 5
    else if same_text key "__udp_latest_type__"
    then 10
    else if same_text key "dtype"
    then 11
    else if same_text key "offset"
    then n + 20
    else if same_text key "nbytes"
    then n + 30
    else if same_text key "motion_clips"
    then 40
    else if same_text key "name"
    then 41
    else if same_text key "joint_pos"
    then 42
    else if same_text key "root_pos"
    then 43
    else if same_text key "root_quat"
    then 44
    else if same_text key "num_frames"
    then 45
    else if same_text key "qpos_size"
    then 46
    else 1

abbrev size_of : ℕ → ℕ
size_of n =
    if n == 22
    then 0
    else if n == 23
    then 116
    else if n == 24
    then 232
    else if n == 25
    then 248
    else if n == 34
    then 16
    else if n == 35
    then 12
    else 116

instance abbrev pub nodes : Yaml ℕ
nodes = record {
  get = child;
  is_defined = λ n. true;
  is_map = λ n. true;
  is_sequence = λ n. true;
  items = λ n.
      if n == 1
      then 1 ∷ 1 ∷ []
      else if n == 42
      then replicate 29 1
      else if n == 43
      then replicate 3 1
      else if n == 44
      then replicate 4 1
      else 1 ∷ [];
  as_string = λ n. ok "default";
  as_size = λ n. ok (size_of n);
  as_int = λ n. ok 0;
  size_or = λ n d. d;
  string_or = λ n d. if n == 10 then "ndarray" else if n == 11 then "<f4" else d;
  bool_or = λ n d. d;
  int_or = λ n d. if n == 45 then 1 else if n == 46 then 36 else d;
  child = λ n key. ok (child n key);
  element = λ n i. ok n;
}

size_of-lt : (n : ℕ) → size_of n < 2 ^ 64
size_of-lt n = ground arith

int_of-lt : (n k : ℕ) → k < 2 ^ 32 → (if n == 45 then 1 else if n == 46 then 36 else k) < 2 ^ 32
int_of-lt n k h = ground arith

pub nodes-IsYaml : IsYaml nodes
nodes-IsYaml = record {
  as_string = λ n. returned tt;
  as_size = λ n. returned (size_of-lt n);
  as_int = λ n. returned (omega arith);
  child = λ n key. returned tt;
  element = λ n i. returned tt;
  int_or = int_of-lt;
}

instance abbrev pub node_floats : YamlFloats ℕ ℕ
node_floats = record { as_float = λ n. ok n; float_or = λ n d. d }

pub node_floats-IsYamlFloats : IsYamlFloats node_floats
node_floats-IsYamlFloats = record { as_float = λ n. returned tt }

-- A packet of one byte of text and 260 bytes of arrays.
abbrev packet : List ℕ
packet =
    magic
    ++ (1 ∷ 0 ∷ 0 ∷ 0 ∷ replicate 16 0)
    ++ (0 ∷ 0 ∷ 0 ∷ 1 ∷ 0 ∷ 0 ∷ 1 ∷ 4 ∷ 0 ∷ 0 ∷ 0 ∷ 7 ∷ 65 ∷ [])
    ++ replicate 260 1

abbrev pub load_root : List ℕ → Result ℕ
load_root text = ok 1

pub load_root-Always : (text : List ℕ) → Always (load_root text)
load_root-Always text = returned tt

abbrev one_waits : Waiting
one_waits = record {
  readable = true;
  datagrams = record { bytes = packet; recv_time = 9 } ∷ [];
  fails = false;
}

receive-IsReceived_example :
    Outcome
      (IsReceived standing)
      (λ r. IsRobotState standing → IsRobotState r)
      (receive seven load_root first one_waits standing)
receive-IsReceived_example =
    receive-IsReceived nodes-IsYaml seven load_root load_root-Always first one_waits standing
      (omega arith, tt)

abbrev around : Surroundings ℕ
around = record {
  stop_signal = false;
  stop_after_receive = false;
  waiting = one_waits;
  vr_input = no_input;
  vr_frames = [];
  last_pose_ns = 0;
  current_ns = 0;
  request_sent = false;
  loaded_file = some small_file;
}

gather_inputs-IsInputs_example :
    IsInputs (gather_inputs seven load_root no_stream first first standing around)
gather_inputs-IsInputs_example =
    gather_inputs-IsInputs nodes-IsYaml seven load_root load_root-Always no_stream first first
      standing around (omega arith, tt)

abbrev four_bytes : ℕ → List ℕ
four_bytes n = n ∷ 0 ∷ 0 ∷ 0 ∷ []

abbrev small_command : Command ℕ
small_command = record {
  seq = 1;
  q_des = 1 ∷ 2 ∷ [];
  qd_des = 3 ∷ [];
  kp = 4 ∷ 5 ∷ [];
  kd = 6 ∷ [];
  enable = 1;
  state_receive_time_ns = 0;
  announcement_id = 0;
  announcement = "";
  mode_indicator_id = 0;
  mode_indicator = "";
}

read_back-pack_command_example :
    (read_back first
        (pack_command four_bytes small_command)
        (pack_command four_bytes small_command).q_ref
      ≡ ok (1 ∷ 2 ∷ []))
    × (read_back first
          (pack_command four_bytes small_command)
          (pack_command four_bytes small_command).qd_ref
        ≡ ok (3 ∷ []))
    × (read_back first
          (pack_command four_bytes small_command)
          (pack_command four_bytes small_command).kp_ref
        ≡ ok (4 ∷ 5 ∷ []))
    × (read_back first
          (pack_command four_bytes small_command)
          (pack_command four_bytes small_command).kd_ref
        ≡ ok (6 ∷ []))
read_back-pack_command_example =
    read_back-pack_command four_bytes first (λ x. refl) (λ x. refl) small_command
