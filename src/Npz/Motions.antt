-- ===== src/Npz/Motions.antt =====
-- The motions of the policy: g1_sim2real/src/g1_npz_policy.cpp, `load_motion` from the arrays of an NPZ
-- file and `default_motion` from the configuration.
use Prim.Native.String.{String, ◌++◌}
use grit_deploy_onboard_g.Prelude.{
  ℕ, ◌+◌, ◌*◌, ◌%◌, ◌^◌, Option, Bool, true, false, not, ◌&&◌, ◌||◌, List, [], ◌∷◌, length, map,
  ltb, ◌==◌, if◌then◌else◌, Result, ok, ◌>>=◌, ◌>>◌, require, throw, at, map_m, all_of, replicate,
}
use grit_deploy_onboard_g.Floats.{Floats, ◌-F◌, ◌<F◌, float}
use grit_deploy_onboard_g.Geometry.{Vec3, Quat, vec3_zero, normalized, conjugate, rotate}
use grit_deploy_onboard_g.Segment.{Motion, dof, below}
use grit_deploy_onboard_g.Yaml.{Yaml, YamlFloats, same_text}
use grit_deploy_onboard_g.Wire.{list_eq}
use grit_deploy_onboard_g.Npz.{Text, NpyArray, as_float}
use grit_deploy_onboard_g.Npz.Archive.{Arrays, at_name, open_archive}

-- The names of the arrays: "fps", "joint_pos", "joint_vel", "body_pos_w", "body_quat_w",
-- "body_lin_vel_w" and "body_ang_vel_w".
abbrev pub fps_name : Text
fps_name = 102 ∷ 112 ∷ 115 ∷ []

abbrev pub joint_pos_name : Text
joint_pos_name = 106 ∷ 111 ∷ 105 ∷ 110 ∷ 116 ∷ 95 ∷ 112 ∷ 111 ∷ 115 ∷ []

abbrev pub joint_vel_name : Text
joint_vel_name = 106 ∷ 111 ∷ 105 ∷ 110 ∷ 116 ∷ 95 ∷ 118 ∷ 101 ∷ 108 ∷ []

abbrev pub body_pos_name : Text
body_pos_name = 98 ∷ 111 ∷ 100 ∷ 121 ∷ 95 ∷ 112 ∷ 111 ∷ 115 ∷ 95 ∷ 119 ∷ []

abbrev pub body_quat_name : Text
body_quat_name = 98 ∷ 111 ∷ 100 ∷ 121 ∷ 95 ∷ 113 ∷ 117 ∷ 97 ∷ 116 ∷ 95 ∷ 119 ∷ []

abbrev pub body_lin_vel_name : Text
body_lin_vel_name =
    98 ∷ 111 ∷ 100 ∷ 121 ∷ 95 ∷ 108 ∷ 105 ∷ 110 ∷ 95 ∷ 118 ∷ 101 ∷ 108 ∷ 95 ∷ 119 ∷ []

abbrev pub body_ang_vel_name : Text
body_ang_vel_name =
    98 ∷ 111 ∷ 100 ∷ 121 ∷ 95 ∷ 97 ∷ 110 ∷ 103 ∷ 95 ∷ 118 ∷ 101 ∷ 108 ∷ 95 ∷ 119 ∷ []

unfoldable pub require_shape : NpyArray → List ℕ → Result (Unit {0})
require_shape array expected = require (list_eq array.shape expected) "NPZ array has another shape"

-- The frames of `joint_pos`, of shape [T, 29].
unfoldable pub frames_of : List ℕ → Result ℕ
frames_of [] = throw "NPZ joint_pos must have shape [T, 29] with T > 0"
frames_of (t ∷ []) = throw "NPZ joint_pos must have shape [T, 29] with T > 0"
frames_of (t ∷ d ∷ []) = do
  require (not ((t == 0) || not (d == dof))) "NPZ joint_pos must have shape [T, 29] with T > 0"
  ok t
frames_of (t ∷ d ∷ e ∷ dims) = throw "NPZ joint_pos must have shape [T, 29] with T > 0"

-- The bodies of `body_pos_w`, of shape [T, B, 3].
unfoldable pub bodies_of : ℕ → List ℕ → Result ℕ
bodies_of frames (t ∷ b ∷ c ∷ []) = do
  require (not (not (t == frames) || (ltb b 1 || not (c == 3))))
      "NPZ body_pos_w must have shape [T, B, 3] with B > 0"
  ok b
bodies_of frames dims = throw "NPZ body_pos_w must have shape [T, B, 3] with B > 0"

-- An array whose shape is tested; the shapes are all tested before the first array is read.
unfoldable pub shaped_at : Arrays → Text → List ℕ → Result NpyArray
shaped_at archive name expected = do
  array ← at_name archive name
  require_shape array expected
  ok array

-- The root in one frame.
pub record RootFrame {ℓ} (F : Type ℓ) : Type ℓ where
  pub position : Vec3 F
  pub quaternion : Quat F
  pub lin_vel_b : Vec3 F
  pub ang_vel_b : Vec3 F

-- The arrays of the bodies as they are read.
pub record Bodies {ℓ} (F : Type ℓ) : Type ℓ where
  pub count : ℕ
  pub pos : List F
  pub quat : List F
  pub lin_vel : List F
  pub ang_vel : List F

module _ {ℓ} {F : Type ℓ} where
  unfoldable pub vec_at : List F → ℕ → Result (Vec3 F)
  vec_at values i = do
    x ← at values i
    y ← at values (i + 1)
    z ← at values (i + 2)
    ok (record { x = x; y = y; z = z })

  unfoldable pub quat_at : List F → ℕ → Result (Quat F)
  quat_at values i = do
    w ← at values i
    x ← at values (i + 1)
    y ← at values (i + 2)
    z ← at values (i + 3)
    ok (record { w = w; x = x; y = y; z = z })

  unfoldable pub motion_of : ℕ → F → List F → List F → List (RootFrame F) → Motion F
  motion_of frames fps joint_pos joint_vel roots = record {
    frames = frames;
    fps = fps;
    joint_pos = joint_pos;
    joint_vel = joint_vel;
    root_pos = map (λ r. r.position) roots;
    root_quat = map (λ r. r.quaternion) roots;
    root_lin_vel_b = map (λ r. r.lin_vel_b) roots;
    root_ang_vel_b = map (λ r. r.ang_vel_b) roots;
    exported_velocities = true;
  }

module _ {ℓ} {F : Type ℓ} ⦃fl : Floats F⦄ where
  -- One round of the loop over the frames, at the first body.
  unfoldable pub root_frame : Bodies F → ℕ → Result (RootFrame F)
  root_frame bodies t = do
    let pos = t * bodies.count * 3 % 2 ^ 64
    let quat = t * bodies.count * 4 % 2 ^ 64
    position ← vec_at bodies.pos pos
    read ← quat_at bodies.quat quat
    quaternion ← normalized read
    lin_w ← vec_at bodies.lin_vel pos
    ang_w ← vec_at bodies.ang_vel pos
    lin_b ← rotate (conjugate quaternion) lin_w
    ang_b ← rotate (conjugate quaternion) ang_w
    ok (record {
      position = position;
      quaternion = quaternion;
      lin_vel_b = lin_b;
      ang_vel_b = ang_b;
    })

  unfoldable pub fps_of : List F → Result F
  fps_of [] = throw "NPZ fps must be exactly 50 Hz"
  fps_of (fps ∷ []) = do
    require (not (not (fl.isfinite fps) || (fl.decimal 1 3 <F fl.abs (fps -F float 50))))
        "NPZ fps must be exactly 50 Hz"
    ok fps
  fps_of (fps ∷ more ∷ values) = throw "NPZ fps must be exactly 50 Hz"

  module _ (of_f4 of_f8 : List ℕ → F) (archive : Arrays) where
    unfoldable pub load_motion : Result (Motion F)
    load_motion = do
      fps_array ← at_name archive fps_name
      fps_values ← as_float of_f4 of_f8 fps_array
      fps ← fps_of fps_values
      joint_pos_array ← at_name archive joint_pos_name
      frames ← frames_of joint_pos_array.shape
      joint_vel_array ← shaped_at archive joint_vel_name (frames ∷ dof ∷ [])
      body_pos_array ← at_name archive body_pos_name
      count ← bodies_of frames body_pos_array.shape
      quat_array ← shaped_at archive body_quat_name (frames ∷ count ∷ 4 ∷ [])
      lin_vel_array ← shaped_at archive body_lin_vel_name (frames ∷ count ∷ 3 ∷ [])
      ang_vel_array ← shaped_at archive body_ang_vel_name (frames ∷ count ∷ 3 ∷ [])
      joint_pos ← as_float of_f4 of_f8 joint_pos_array
      joint_vel ← as_float of_f4 of_f8 joint_vel_array
      pos ← as_float of_f4 of_f8 body_pos_array
      quat ← as_float of_f4 of_f8 quat_array
      lin_vel ← as_float of_f4 of_f8 lin_vel_array
      ang_vel ← as_float of_f4 of_f8 ang_vel_array
      roots ←
          map_m
            (root_frame (record {
              count = count;
              pos = pos;
              quat = quat;
              lin_vel = lin_vel;
              ang_vel = ang_vel;
            }))
            (below frames)
      require (all_of fl.isfinite joint_pos && all_of fl.isfinite joint_vel)
          "NPZ joint arrays contain non-finite values"
      ok (motion_of frames fps joint_pos joint_vel roots)

-- `load_motion` of a file's bytes.
unfoldable pub load_file {ℓ} :
    {F : Type ℓ} ⦃fl : Floats F⦄
    → (ℕ → List ℕ → ℕ)
    → (List ℕ → ℕ → Option (List ℕ))
    → (List ℕ → F)
    → (List ℕ → F)
    → List ℕ
    → Result (Motion F)
load_file crc32 inflate of_f4 of_f8 file = do
  archive ← open_archive crc32 inflate file
  load_motion of_f4 of_f8 archive

-- `clip["name"] && clip["name"].as<std::string>() == "default"`.
unfoldable pub is_default {κ} : {N : Type κ} ⦃yaml : Yaml N⦄ → N → Result Bool
is_default ⦃yaml = yaml⦄ name_node =
    let named = yaml.as_string name_node >>= λ name. ok (same_text name "default") in
    if yaml.is_defined name_node then named else ok false

module _ {ℓ κ} {N : Type κ} {F : Type ℓ} ⦃fl : Floats F⦄ ⦃yaml : Yaml N⦄
    ⦃floats : YamlFloats N F⦄ where
  unfoldable pub yaml_float_vector : N → String → ℕ → Result (List F)
  yaml_float_vector node name expected = do
    require
        (not (
          not (yaml.is_defined node)
          || (not (yaml.is_sequence node) || not (length (yaml.items node) == expected))))
        (name ++ " must contain the expected number of values")
    map_m floats.as_float (yaml.items node)

  unfoldable pub default_clip : N → Result (Motion F)
  default_clip clip = do
    joint_node ← yaml.child clip "joint_pos"
    joint_pos ← yaml_float_vector joint_node "default.joint_pos" dof
    pos_node ← yaml.child clip "root_pos"
    pos ← yaml_float_vector pos_node "default.root_pos" 3
    quat_node ← yaml.child clip "root_quat"
    quat ← yaml_float_vector quat_node "default.root_quat" 4
    position ← vec_at pos 0
    read ← quat_at quat 0
    quaternion ← normalized read
    ok (record {
      frames = 1;
      fps = float 50;
      joint_pos = joint_pos;
      joint_vel = replicate dof (float 0);
      root_pos = position ∷ [];
      root_quat = quaternion ∷ [];
      root_lin_vel_b = vec3_zero ∷ [];
      root_ang_vel_b = vec3_zero ∷ [];
      exported_velocities = false;
    })

  unfoldable pub find_default : List N → Result (Motion F)
  find_default [] = throw "tracking.motion_clips must include default"
  find_default (clip ∷ clips) = do
    let rest = find_default clips
    name_node ← yaml.child clip "name"
    here ← is_default name_node
    if here then default_clip clip else rest

  unfoldable pub default_motion : N → Result (Motion F)
  default_motion tracking = do
    clips ← yaml.child tracking "motion_clips"
    require (not (not (yaml.is_defined clips) || not (yaml.is_sequence clips)))
        "tracking.motion_clips is required"
    find_default (yaml.items clips)
