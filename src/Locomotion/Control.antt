-- ===== src/Locomotion/Control.antt =====
-- `LocomotionPolicy::reset` and `step` (g1_npz_policy.cpp) keep the sizes of the observation.
use mathlib.Core.Path.{subst}
use grit_deploy_onboard_g.Prelude.{
  ap, ok, Ensures-self, ℕ, zero, suc, ◌*◌, ◌≤◌, ◌≡◌, refl, sym, ◌∙◌, arith, Bool, true, false, not,
  if-split, Option, none, some, List, ◌++◌, map, length, drop, replicate, length-append, length-map,
  length-drop, length-replicate, ==→eq, if◌then◌else◌, Result, Ensures, returned, Ensures-bind,
  Ensures-require,
}
use grit_deploy_onboard_g.Floats.{Floats, float, clamp}
use grit_deploy_onboard_g.Geometry.{Vec3}
use grit_deploy_onboard_g.Geometry.Totality.{Always, rotate-Always}
use grit_deploy_onboard_g.Segment.{dof, zip_with}
use grit_deploy_onboard_g.Segment.Shape.{IsMotion, length-zip_with}
use grit_deploy_onboard_g.Grit.{RobotState}
use grit_deploy_onboard_g.Grit.Invariant.{IsJointMap, IsRobotState}
use grit_deploy_onboard_g.Grit.Buffers.{length-gather}
use grit_deploy_onboard_g.Locomotion.{
  StickInput, LocomotionPolicy, loco_history_length, loco_frame_dim, loco_observation_dim,
  no_command, limit, pico_neutral, command_from_user_axes, command_from_remote, choose_command,
  axis_command, smoothed, make_frame, repeat_frame, reset, infer_locomotion, step,
}

-- The parts that the constructor sets up, with the last action.
pub record IsLocomotion {ℓ} {F : Type ℓ} (p : LocomotionPolicy F) : Type 0 where
  pub motion : IsMotion p.default_motion
  pub ref : IsJointMap p.ref_from_controller
  pub controller : IsJointMap p.controller_from_ref
  pub scale : length p.action_scale ≡ dof
  pub action : length p.last_action ≡ dof

-- A policy with four frames of history.
pub record IsReady {ℓ} {F : Type ℓ} (p : LocomotionPolicy F) : Type 0 where
  pub parts : IsLocomotion p
  pub history : length p.history ≡ loco_observation_dim

length-repeat_frame {ℓ} :
    {F : Type ℓ} (n : ℕ) (frame : List F)
    → length frame ≡ loco_frame_dim
    → length (repeat_frame n frame) ≡ n * loco_frame_dim
unfolding repeat_frame
length-repeat_frame zero frame h = omega arith
length-repeat_frame (suc n) frame h =
    omega (arith, length-append frame (repeat_frame n frame), length-repeat_frame n frame h)

module _ {ℓ} {F : Type ℓ} ⦃fl : Floats F⦄ where
  make_frame-length :
      (state : RobotState F) (command : Vec3 F) (p : LocomotionPolicy F)
      → IsRobotState state
      → IsJointMap p.ref_from_controller
      → Ensures (λ frame. length frame ≡ loco_frame_dim) (make_frame state command p)
  unfolding make_frame
  make_frame-length state command p vs m = Ensures-bind (rotate-Always _ _) λ gravity _.
      Ensures-bind (length-gather state.q _ vs.q m) λ q_ref _.
        Ensures-bind (length-gather state.dq _ vs.dq m) λ dq_ref _.
          Ensures-bind (Ensures-require _ _)
            λ _ sized. returned (length-map limit _ ∙ ==→eq _ _ sized)

  -- A user's axis within its range.
  abbrev pub held : F → F
  held axis = clamp axis (fl.neg (float 1)) (float 1)

  -- The command of a user's axes: forwards, to the left, and the turn, each after its dead zone and
  -- smoothed against the command before.
  abbrev pub user_command : F → F → F → Vec3 F → Vec3 F
  user_command left_x left_y right_x previous = record {
    x = smoothed previous.x (axis_command (held left_y) (fl.decimal 8 1) (float 1));
    y = smoothed previous.y (axis_command (held left_x) (float 1) (float 1));
    z = smoothed previous.z (axis_command (held right_x) (fl.decimal 314 2) (fl.decimal 314 2));
  }

  -- Who gives the command, and which command is kept for the next step.
  pub data Driven (force : Bool) (state : RobotState F) (sticks : Option (StickInput F))
      (p : LocomotionPolicy F) (command kept : Vec3 F) : Type ℓ where
    forced :
        force ≡ true
        → command ≡ no_command
        → kept ≡ p.previous_command
        → Driven force state sticks p command kept
    pico :
        (s : StickInput F)
        → force ≡ false
        → sticks ≡ some s
        → pico_neutral s ≡ false
        → command ≡ user_command (fl.neg s.left_x) s.left_y (fl.neg s.right_x) p.previous_command
        → kept ≡ command
        → Driven force state sticks p command kept
    remote :
        force ≡ false
        → ((s : StickInput F) → sticks ≡ some s → pico_neutral s ≡ true)
        → command ≡ user_command (fl.neg state.lx) state.ly (fl.neg state.rx) p.previous_command
        → kept ≡ command
        → Driven force state sticks p command kept

  -- Choosing a command changes the kept command alone.
  commanded-eq :
      (force : Bool) (state : RobotState F) (sticks : Option (StickInput F))
      (p : LocomotionPolicy F)
      → let c = if force then (p, no_command) else choose_command state sticks p in
        c.0 ≡ record p { previous_command = c.0.previous_command }
  unfolding choose_command command_from_remote command_from_user_axes
  commanded-eq true state sticks p = refl
  commanded-eq false state none p = refl
  commanded-eq false state (some sticks) p =
      if-split
        (λ (r : LocomotionPolicy F × Vec3 F).
          r.0 ≡ record p { previous_command = r.0.previous_command })
        (not (pico_neutral sticks)) (λ _. refl) (λ _. refl)

  commanded-Driven :
      (force : Bool) (state : RobotState F) (sticks : Option (StickInput F))
      (p : LocomotionPolicy F)
      → let c = if force then (p, no_command) else choose_command state sticks p in
        Driven force state sticks p c.1 c.0.previous_command
  unfolding choose_command command_from_remote command_from_user_axes
  commanded-Driven true state sticks p = forced refl refl refl
  commanded-Driven false state none p = remote refl (λ s (e : none ≡ some s). absurd (cc)) refl refl
  commanded-Driven false state (some sticks) p =
      if-split
        (λ (r : LocomotionPolicy F × Vec3 F).
          Driven false state (some sticks) p r.1 r.0.previous_command)
        (not (pico_neutral sticks)) (λ h. pico sticks refl refl (ground arith) refl refl)
        λ h. remote refl (λ s (e : some sticks ≡ some s). ground arith) refl refl

  -- A reset throws, or fills the history with four equal frames; it forgets the last action and the
  -- last command, whatever the history was.
  pub reset-IsReady :
      (state : RobotState F) (p : LocomotionPolicy F)
      → IsRobotState state
      → IsLocomotion p
      → Ensures
          (λ q.
            IsReady q
            × (q.previous_command ≡ no_command)
            × (q.last_action ≡ replicate dof (float 0))
            × ((frame : List F) × (q.history ≡ repeat_frame loco_history_length frame)))
          (reset state p)
  unfolding reset
  reset-IsReady state p vs v =
      Ensures-bind (make_frame-length state no_command _ vs v.ref) λ frame h. returned (
        record {
          parts = record {
            motion = v.motion;
            ref = v.ref;
            controller = v.controller;
            scale = v.scale;
            action = length-replicate dof (float {F = F} 0);
          };
          history = omega (arith, length-repeat_frame loco_history_length frame h);
        },
        refl,
        refl,
        (frame, refl),
      )

  length-target_ref :
      (inferred scale pose : List F)
      → length inferred ≡ dof
      → length scale ≡ dof
      → dof ≤ length pose
      → length (zip_with fl.add (zip_with fl.mul (map limit inferred) scale) pose) ≡ dof
  length-target_ref inferred scale pose i s t = omega (
    arith,
    length-zip_with fl.add (zip_with fl.mul (map limit inferred) scale) pose,
    length-zip_with fl.mul (map limit inferred) scale,
    length-map limit inferred,
  )

  next-IsReady :
      (p q : LocomotionPolicy F) (command : Vec3 F) (raw frame : List F)
      → q ≡ record p { previous_command = command }
      → IsReady p
      → length raw ≡ dof
      → length frame ≡ loco_frame_dim
      → IsReady (record q { history = drop loco_frame_dim p.history ++ frame; last_action = raw })
  next-IsReady p q command raw frame same v r h =
      subst
        (λ (c : LocomotionPolicy F).
          IsReady
            (record c { history = drop loco_frame_dim p.history ++ frame; last_action = raw }))
        (sym same)
        (record {
          parts = record {
            motion = v.parts.motion;
            ref = v.parts.ref;
            controller = v.parts.controller;
            scale = v.parts.scale;
            action = r;
          };
          history = omega (
            arith,
            length-append (drop loco_frame_dim p.history) frame,
            length-drop loco_frame_dim p.history,
            v.history,
            h,
          );
        })

  module _ (run : List F → Result (List F)) (safe : (o : List F) → Always (run o)) where
    infer_locomotion-length :
        (o : List F) → Ensures (λ xs. length xs ≡ dof) (infer_locomotion run o)
    unfolding infer_locomotion
    infer_locomotion-length o =
        Ensures-bind (safe o)
          λ actions _. Ensures-bind (Ensures-require _ _) λ _ sized. returned (==→eq _ _ sized)

    -- A step of a ready policy throws, or gives 29 joint targets and a ready policy: its history drops
    -- the oldest frame and takes the one of this state and the command that drives the robot. That is
    -- no command while it is forced to zero, which leaves the kept command as it was; it is that of the
    -- PICO's sticks where one of them is outside the dead zone, with both horizontal axes negated, and
    -- that of the remote's otherwise, and it is kept.
    pub step-IsReady :
        (state : RobotState F) (force : Bool) (sticks : Option (StickInput F))
        (p : LocomotionPolicy F)
        → IsRobotState state
        → IsReady p
        → Ensures
            (λ r.
              IsReady r.0
              × (length r.1 ≡ dof)
              × ((command : Vec3 F) × Driven force state sticks p command r.0.previous_command
                  × ((frame : List F) × (make_frame state command
                          (record p { previous_command = r.0.previous_command })
                        ≡ ok frame)
                      × (r.0.history ≡ drop loco_frame_dim p.history ++ frame))))
            (step run state force sticks p)
    unfolding step
    step-IsReady state force sticks p vs v =
        let c = if force then (p, no_command) else choose_command state sticks p in
        let same = commanded-eq force state sticks p in
        let m =
          subst (λ (q : LocomotionPolicy F). IsJointMap q.ref_from_controller) (sym same)
            v.parts.ref in
        Ensures-bind (Ensures-self (make_frame-length state c.1 c.0 vs m)) λ frame h.
          Ensures-bind (Ensures-require _ _) λ _ _.
            Ensures-bind (infer_locomotion-length _) λ inferred n.
              Ensures-bind (Ensures-require _ _) λ _ _.
                Ensures-bind
                  (length-gather _ p.controller_from_ref
                    (length-target_ref inferred p.action_scale p.default_motion.joint_pos n
                      v.parts.scale
                      (omega (arith, v.parts.motion.joint_pos, v.parts.motion.some_frame)))
                    v.parts.controller)
                  λ target t. returned (
                    next-IsReady p c.0 c.0.previous_command (map limit inferred) frame same v
                        (length-map limit inferred ∙ n) h.0,
                    t,
                    (
                      c.1,
                      commanded-Driven force state sticks p,
                      (frame, ap (make_frame state c.1) (sym same) ∙ h.1, refl),
                    ),
                  )
