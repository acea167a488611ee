-- ===== src/Npz/Loaded.antt =====
-- The motions of `load_motion` and `default_motion` (g1_sim2real/src/g1_npz_policy.cpp) have the sizes
-- that the policy relies on.
use Prim.Native.String.{String}
use grit_deploy_onboard_g.Prelude.{
  ℕ, ◌^◌, ◌<◌, true, false, ok, replicate, ◌≡◌, refl, arith, ap, sym, ◌∙◌, List, [], ◌∷◌, length,
  Ensures, returned, thrown, Ensures-bind, Ensures-require, Ensures-weaken, Ensures-map_m,
}
use grit_deploy_onboard_g.Floats.{Floats, float}
use grit_deploy_onboard_g.Geometry.{conjugate}
use grit_deploy_onboard_g.Geometry.Totality.{Always, normalized-Always, rotate-Always}
use grit_deploy_onboard_g.Segment.{Motion, dof, below}
use grit_deploy_onboard_g.Segment.Shape.{IsMotion, below-lt, length-below}
use grit_deploy_onboard_g.Yaml.{Yaml, YamlFloats}
use grit_deploy_onboard_g.Bridge.Arrays.Bounds.{product}
use grit_deploy_onboard_g.Npz.{NpyArray, as_float}
use grit_deploy_onboard_g.Npz.Archive.{Arrays}
use grit_deploy_onboard_g.Npz.Sizes.{as_float-length}
use grit_deploy_onboard_g.Npz.Motions.{
  Bodies, root_frame, fps_of, load_motion, yaml_float_vector, is_default, fps_name, joint_pos_name,
  joint_vel_name, body_pos_name, body_quat_name, body_lin_vel_name, body_ang_vel_name,
}
use grit_deploy_onboard_g.Npz.Shapes.{
  at_name-Always, shaped_at-Ensures, frames_of-Ensures, bodies_of-Ensures, frame_le, vec_at-Always,
  quat_at-Always, IsBodies, motion_of-IsMotion,
}

module _ {ℓ} {F : Type ℓ} ⦃fl : Floats F⦄ where
  fps_of-Always : (values : List F) → Always (fps_of values)
  unfolding fps_of
  fps_of-Always [] = thrown
  fps_of-Always (fps ∷ []) = Ensures-bind (Ensures-require _ _) λ _ _. returned tt
  fps_of-Always (fps ∷ more ∷ values) = thrown

  root_frame-Always :
      (frames t : ℕ) (b : Bodies F) → IsBodies frames b → t < frames → Always (root_frame b t)
  unfolding root_frame
  root_frame-Always frames t b h lt =
      let le = frame_le t frames b.count lt h.some_body in
      let fits = h.fits in
      let p = h.pos in
      let q = h.quat in
      let l = h.lin_vel in
      let a = h.ang_vel in
      Ensures-bind (vec_at-Always b.pos _ (omega (arith, le, p, fits))) λ _ _.
        Ensures-bind (quat_at-Always b.quat _ (omega (arith, le, q, fits))) λ read _.
          Ensures-bind (normalized-Always read) λ unit _.
            Ensures-bind (vec_at-Always b.lin_vel _ (omega (arith, le, l, fits))) λ lin _.
              Ensures-bind (vec_at-Always b.ang_vel _ (omega (arith, le, a, fits))) λ ang _.
                Ensures-bind (rotate-Always (conjugate unit) lin)
                  λ _ _. Ensures-bind (rotate-Always (conjugate unit) ang) λ _ _. returned tt

  module _ (of_f4 of_f8 : List ℕ → F) where
    -- The values of an array whose shape is known.
    values_of :
        (array : NpyArray) (dims : List ℕ)
        → array.shape ≡ dims
        → Ensures
            (λ out. (length out ≡ product dims) × (product dims < 2 ^ 64))
            (as_float of_f4 of_f8 array)
    values_of array dims e =
        Ensures-weaken (as_float-length of_f4 of_f8 array)
          λ out h. (h.0 ∙ ap product e, rw (sym e) h.1)

    -- Whatever arrays a file holds, `load_motion` throws or returns a motion with at least one frame
    -- whose joint arrays have 29 values for each frame and whose root arrays have one.
    pub load_motion-IsMotion :
        (archive : Arrays) → Ensures IsMotion (load_motion of_f4 of_f8 archive)
    unfolding load_motion
    load_motion-IsMotion archive = Ensures-bind (at_name-Always archive fps_name) λ fps_array _.
        Ensures-bind (values_of fps_array _ refl) λ fps_values _.
          Ensures-bind (fps_of-Always fps_values) λ fps _.
            Ensures-bind (at_name-Always archive joint_pos_name) λ jp _.
              Ensures-bind (frames_of-Ensures jp.shape) λ frames hf.
                Ensures-bind (shaped_at-Ensures archive joint_vel_name _) λ jv ejv.
                  Ensures-bind (at_name-Always archive body_pos_name) λ bp _.
                    Ensures-bind (bodies_of-Ensures frames bp.shape) λ count hb.
                      Ensures-bind (shaped_at-Ensures archive body_quat_name _) λ bq ebq.
                        Ensures-bind (shaped_at-Ensures archive body_lin_vel_name _) λ bl ebl.
                          Ensures-bind (shaped_at-Ensures archive body_ang_vel_name _) λ ba eba.
                            Ensures-bind (values_of jp _ hf.0) λ joint_pos hp.
                              Ensures-bind (values_of jv _ ejv) λ joint_vel hv.
                                Ensures-bind (values_of bp _ hb.0) λ pos ps.
                                  Ensures-bind (values_of bq _ ebq) λ quat qs.
                                    Ensures-bind (values_of bl _ ebl) λ lin_vel ls.
                                      Ensures-bind (values_of ba _ eba) λ ang_vel gs.
                                        Ensures-bind
                                          (Ensures-map_m (λ t. t < frames) (λ r. Unit {0}) _
                                            (below frames)
                                            (λ t lt.
                                              root_frame-Always frames t _
                                                (record {
                                                  some_body = hb.1;
                                                  pos = ps.0;
                                                  quat = qs.0;
                                                  lin_vel = ls.0;
                                                  ang_vel = gs.0;
                                                  fits = qs.1;
                                                })
                                                lt)
                                            (below-lt frames))
                                          λ roots hr. Ensures-bind (Ensures-require _ _) λ _ _.
                                            returned (
                                              motion_of-IsMotion frames fps joint_pos joint_vel
                                                roots hf.1 hp.0 hv.0 (hr.1 ∙ length-below frames)
                                                hp.1)

module _ {ℓ κ} {N : Type κ} {F : Type ℓ} ⦃fl : Floats F⦄ ⦃yaml : Yaml N⦄
    ⦃floats : YamlFloats N F⦄ where
  -- A motion of one frame at rest in the pose that a clip of the configuration gives.
  pub record IsClip (clip : N) (m : Motion F) : Type (ℓ ⊔ κ) where
    pub motion : IsMotion m
    pub one_frame : m.frames ≡ 1
    pub joint_node : N
    pub joints_at : yaml.child clip "joint_pos" ≡ ok joint_node
    pub joints : yaml_float_vector joint_node "default.joint_pos" dof ≡ ok m.joint_pos
    pub at_rest : m.joint_vel ≡ replicate dof (float 0)

  -- The first clip of a list that is named "default".
  pub data Chosen (m : Motion F) : List N → Type (ℓ ⊔ κ) where
    here :
        {clip name : N} {clips : List N}
        → yaml.child clip "name" ≡ ok name
        → is_default name ≡ ok true
        → IsClip clip m
        → Chosen m (clip ∷ clips)
    later :
        {clip name : N} {clips : List N}
        → yaml.child clip "name" ≡ ok name
        → is_default name ≡ ok false
        → Chosen m clips
        → Chosen m (clip ∷ clips)

  -- A motion of one frame from the clips of the configuration's `tracking` part.
  pub record IsDefault (tracking : N) (m : Motion F) : Type (ℓ ⊔ κ) where
    pub clips : N
    pub clips_at : yaml.child tracking "motion_clips" ≡ ok clips
    pub chosen : Chosen m (yaml.items clips)
