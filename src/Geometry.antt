-- ===== src/Geometry.antt =====
-- Vectors and quaternions: g1_sim2real/src/g1_npz_policy.cpp, `Vec3`, `Quat` and the functions on
-- them. A function that normalises a quaternion throws on one with no usable norm.

pub mod Totality
use grit_deploy_onboard_g.Prelude.{
  List, [], ◌∷◌, not, ◌||◌, Result, ok, ◌>>=◌, ◌>>◌, require, at, if◌then◌else◌,
}
use grit_deploy_onboard_g.Floats.{Floats, ◌+F◌, ◌-F◌, ◌*F◌, ◌/F◌, ◌<F◌, float, clamp}

pub record Vec3 {ℓ} (F : Type ℓ) : Type ℓ where
  pub x : F
  pub y : F
  pub z : F

pub record Quat {ℓ} (F : Type ℓ) : Type ℓ where
  pub w : F
  pub x : F
  pub y : F
  pub z : F

module _ {ℓ} {F : Type ℓ} ⦃fl : Floats F⦄ where
  -- `Vec3{}` and `Quat{}` take the default member initialisers.
  abbrev pub vec3_zero : Vec3 F
  vec3_zero = record { x = float 0; y = float 0; z = float 0 }

  abbrev pub quat_one : Quat F
  quat_one = record { w = float 1; x = float 0; y = float 0; z = float 0 }

  unfoldable pub add_vec : Vec3 F → Vec3 F → Vec3 F
  add_vec a b = record { x = a.x +F b.x; y = a.y +F b.y; z = a.z +F b.z }

  unfoldable pub sub_vec : Vec3 F → Vec3 F → Vec3 F
  sub_vec a b = record { x = a.x -F b.x; y = a.y -F b.y; z = a.z -F b.z }

  unfoldable pub scale_vec : Vec3 F → F → Vec3 F
  scale_vec a scale = record { x = a.x *F scale; y = a.y *F scale; z = a.z *F scale }

  unfoldable pub quat_norm : Quat F → F
  quat_norm q = fl.sqrt (q.w *F q.w +F q.x *F q.x +F q.y *F q.y +F q.z *F q.z)

  unfoldable pub normalized : Quat F → Result (Quat F)
  normalized q = do
    let norm = quat_norm q
    require (not (not (fl.isfinite norm) || (norm <F fl.decimal 1 6)))
        "Invalid zero/non-finite quaternion"
    ok (record { w = q.w /F norm; x = q.x /F norm; y = q.y /F norm; z = q.z /F norm })

  unfoldable pub conjugate : Quat F → Quat F
  conjugate q = record { w = q.w; x = fl.neg q.x; y = fl.neg q.y; z = fl.neg q.z }

  unfoldable pub neg_quat : Quat F → Quat F
  neg_quat q = record { w = fl.neg q.w; x = fl.neg q.x; y = fl.neg q.y; z = fl.neg q.z }

  unfoldable pub dot_quat : Quat F → Quat F → F
  dot_quat a b = a.w *F b.w +F a.x *F b.x +F a.y *F b.y +F a.z *F b.z

  unfoldable pub mul_quat : Quat F → Quat F → Result (Quat F)
  mul_quat a b = normalized (record {
    w = a.w *F b.w -F a.x *F b.x -F a.y *F b.y -F a.z *F b.z;
    x = a.w *F b.x +F a.x *F b.w +F a.y *F b.z -F a.z *F b.y;
    y = a.w *F b.y -F a.x *F b.z +F a.y *F b.w +F a.z *F b.x;
    z = a.w *F b.z +F a.x *F b.y -F a.y *F b.x +F a.z *F b.w;
  })

  unfoldable pub rotate : Quat F → Vec3 F → Result (Vec3 F)
  rotate q_in value = do
    q ← normalized q_in
    let u : Vec3 F = record { x = q.x; y = q.y; z = q.z }
    let dot_uv = u.x *F value.x +F u.y *F value.y +F u.z *F value.z
    let dot_uu = u.x *F u.x +F u.y *F u.y +F u.z *F u.z
    let cross : Vec3 F = record {
      x = u.y *F value.z -F u.z *F value.y;
      y = u.z *F value.x -F u.x *F value.z;
      z = u.x *F value.y -F u.y *F value.x;
    }
    ok (
        add_vec (add_vec (scale_vec u (float 2 *F dot_uv)) (scale_vec value (q.w *F q.w -F dot_uu)))
          (scale_vec cross (float 2 *F q.w)))

  unfoldable pub yaw_quat : Quat F → Result (Quat F)
  yaw_quat q_in = do
    q ← normalized q_in
    let yaw =
        fl.atan2 (float 2 *F (q.w *F q.z +F q.x *F q.y))
          (float 1 -F float 2 *F (q.y *F q.y +F q.z *F q.z))
    ok (record {
      w = fl.cos (fl.decimal 5 1 *F yaw);
      x = float 0;
      y = float 0;
      z = fl.sin (fl.decimal 5 1 *F yaw);
    })

  unfoldable pub replace_yaw : Quat F → Quat F → Result (Quat F)
  replace_yaw reference heading_source = do
    yaw ← yaw_quat reference
    upright ← normalized reference
    tilt ← mul_quat (conjugate yaw) upright
    heading ← yaw_quat heading_source
    aligned ← mul_quat heading tilt
    let dot = dot_quat aligned reference
    ok (if dot <F float 0 then neg_quat aligned else aligned)

  -- The weighted sum a * wa + b * wb, each component as the source writes it.
  unfoldable pub blend_quat : F → Quat F → F → Quat F → Quat F
  blend_quat wa a wb b = record {
    w = wa *F a.w +F wb *F b.w;
    x = wa *F a.x +F wb *F b.x;
    y = wa *F a.y +F wb *F b.y;
    z = wa *F a.z +F wb *F b.z;
  }

  -- a + t * (b - a).
  unfoldable pub lerp_quat : Quat F → Quat F → F → Quat F
  lerp_quat a b t = record {
    w = a.w +F t *F (b.w -F a.w);
    x = a.x +F t *F (b.x -F a.x);
    y = a.y +F t *F (b.y -F a.y);
    z = a.z +F t *F (b.z -F a.z);
  }

  unfoldable pub slerp : Quat F → Quat F → F → Result (Quat F)
  slerp a_in b_in t = do
    a ← normalized a_in
    b_unit ← normalized b_in
    let dot_unit = dot_quat a b_unit
    let flipped = dot_unit <F float 0
    let b = if flipped then neg_quat b_unit else b_unit
    let dot = if flipped then fl.neg dot_unit else dot_unit
    let theta = fl.acos (clamp dot (fl.neg (float 1)) (float 1))
    let denom = fl.sin theta
    let wa = fl.sin ((float 1 -F t) *F theta) /F denom
    let wb = fl.sin (t *F theta) /F denom
    normalized (if fl.decimal 9995 4 <F dot then lerp_quat a b t else blend_quat wa a wb b)

  -- The rows of the rotation matrix, one after the other; `rot6d` keeps the first two columns.
  unfoldable pub rotation_matrix : Quat F → Result (List F)
  rotation_matrix q_in = do
    q ← normalized q_in
    let ww = q.w *F q.w
    let xx = q.x *F q.x
    let yy = q.y *F q.y
    let zz = q.z *F q.z
    ok (
        (ww +F xx -F yy -F zz)
        ∷ (float 2 *F (q.x *F q.y -F q.w *F q.z))
        ∷ (float 2 *F (q.x *F q.z +F q.w *F q.y))
        ∷ (float 2 *F (q.x *F q.y +F q.w *F q.z))
        ∷ (ww -F xx +F yy -F zz)
        ∷ (float 2 *F (q.y *F q.z -F q.w *F q.x))
        ∷ (float 2 *F (q.x *F q.z -F q.w *F q.y))
        ∷ (float 2 *F (q.y *F q.z +F q.w *F q.x))
        ∷ (ww -F xx -F yy +F zz)
        ∷ [])

  unfoldable pub rot6d : Quat F → Result (List F)
  rot6d q = do
    m ← rotation_matrix q
    m0 ← at m 0
    m1 ← at m 1
    m3 ← at m 3
    m4 ← at m 4
    m6 ← at m 6
    m7 ← at m 7
    ok (m0 ∷ m1 ∷ m3 ∷ m4 ∷ m6 ∷ m7 ∷ [])

  -- The axis of the rotation, as long as its angle.
  unfoldable pub rotation_vector : Quat F → Result (Vec3 F)
  rotation_vector q_in = do
    unit ← normalized q_in
    let q = if unit.w <F float 0 then neg_quat unit else unit
    let sin_half = fl.sqrt (q.x *F q.x +F q.y *F q.y +F q.z *F q.z)
    let scale = float 2 *F fl.atan2 sin_half q.w /F sin_half
    ok (
        if sin_half <F fl.decimal 1 7
        then record { x = float 2 *F q.x; y = float 2 *F q.y; z = float 2 *F q.z }
        else scale_vec (record { x = q.x; y = q.y; z = q.z }) scale)
