-- ===== src/Loop/Invariant.antt =====
-- What holds of the control loop's variables (g1_sim2real/src/g1_npz_policy.cpp, `main`) between two
-- rounds.
use grit_deploy_onboard_g.Prelude.{
  ℕ, ◌≤◌, ◌<◌, ◌≡◌, ◌⊎◌, Bool, true, false, Option, some, List, ◌∷◌, length, Result, Ensures,
}
use grit_deploy_onboard_g.Segment.{Motion, dof}
use grit_deploy_onboard_g.Segment.Shape.{IsMotion}
use grit_deploy_onboard_g.Grit.{RobotState, GritPolicy}
use grit_deploy_onboard_g.Grit.Invariant.{IsConfigured, IsPolicy, IsRobotState}
use grit_deploy_onboard_g.Locomotion.{LocomotionPolicy}
use grit_deploy_onboard_g.Locomotion.Control.{IsLocomotion, IsReady}
use grit_deploy_onboard_g.Transport.{Command}
use grit_deploy_onboard_g.Loop.{
  WholeBodyMode, vr_tracking, npz_playback, Mode, LoopConfig, Inputs, Loop, move_steps, blend_steps,
  locomotion_stop_steps,
}

-- The modes in which each policy runs.
abbrev pub runs_locomotion : Mode → Bool
runs_locomotion Mode.zero_torque = false
runs_locomotion Mode.move_to_default = false
runs_locomotion Mode.locomotion_blend = true
runs_locomotion Mode.locomotion = true
runs_locomotion Mode.locomotion_stopping = true
runs_locomotion Mode.whole_body_blend = false
runs_locomotion Mode.whole_body = false
runs_locomotion Mode.whole_body_switching = false
runs_locomotion Mode.whole_body_stopping = false

abbrev pub runs_whole_body : Mode → Bool
runs_whole_body Mode.zero_torque = false
runs_whole_body Mode.move_to_default = false
runs_whole_body Mode.locomotion_blend = false
runs_whole_body Mode.locomotion = false
runs_whole_body Mode.locomotion_stopping = false
runs_whole_body Mode.whole_body_blend = true
runs_whole_body Mode.whole_body = true
runs_whole_body Mode.whole_body_switching = true
runs_whole_body Mode.whole_body_stopping = true

pub record IsLoopConfig {ℓ} {F : Type ℓ} (cfg : LoopConfig F) : Type 0 where
  pub init : length cfg.init_q ≡ dof
  pub whole_body_p : length cfg.whole_body_kp ≡ dof
  pub whole_body_d : length cfg.whole_body_kd ≡ dof
  pub locomotion_p : length cfg.locomotion_kp ≡ dof
  pub locomotion_d : length cfg.locomotion_kd ≡ dof

-- The policies: each is ready in the modes in which it runs.
pub record IsRunning {ℓ} {F : Type ℓ} (mode : Mode) (grit : GritPolicy F)
    (loco : LocomotionPolicy F) : Type 0 where
  pub configured : IsConfigured grit
  pub whole_body : runs_whole_body mode ≡ true → IsPolicy grit
  pub parts : IsLocomotion loco
  pub ready : runs_locomotion mode ≡ true → IsReady loco

-- VR streams, or is asked to, only while the whole-body mode tracks; a motion plays only while it plays
-- back; and tracking takes a VR client.
pub record IsTracking (vr_client : Bool) (mode : Mode) (whole_body_mode : WholeBodyMode)
    (streaming playing pending : Bool) : Type 0 where
  pub streams : streaming ≡ true → (mode ≡ Mode.whole_body) × (whole_body_mode ≡ vr_tracking)
  pub asks : pending ≡ true → (mode ≡ Mode.whole_body) × (whole_body_mode ≡ vr_tracking)
  pub plays : playing ≡ true → (mode ≡ Mode.whole_body) × (whole_body_mode ≡ npz_playback)
  pub tracks : whole_body_mode ≡ vr_tracking → vr_client ≡ true

-- The counters of the timed modes.
pub record IsTimed (mode : Mode) (move_step mode_step : ℕ) : Type 0 where
  pub moves : mode ≡ Mode.move_to_default → move_step < move_steps
  pub blends : mode ≡ Mode.locomotion_blend → mode_step ≤ blend_steps
  pub stops : mode ≡ Mode.locomotion_stopping → mode_step < locomotion_stop_steps

-- A motion that is selected, loading or loaded.
pub record IsSelecting {ℓ} {F : Type ℓ} (motion_count selected : ℕ) (pending : Option ℕ)
    (loaded : Option (Motion F)) : Type ℓ where
  pub selection : (selected < motion_count) ⊎ (motion_count ≡ 0)
  pub loading : (index : ℕ) → pending ≡ some index → index < motion_count
  pub shaped : (motion : Motion F) → loaded ≡ some motion → IsMotion motion

pub record IsBlending {ℓ} {F : Type ℓ} (start kp kd : List F) : Type 0 where
  pub start_size : length start ≡ dof
  pub kp_size : length kp ≡ dof
  pub kd_size : length kd ≡ dof

abbrev pub IsLoop {ℓ} : {F : Type ℓ} → LoopConfig F → Loop F → Type ℓ
IsLoop cfg l =
    IsRunning l.mode l.grit l.loco
    × IsTracking cfg.vr_client l.mode l.whole_body_mode l.grit.vr_streaming l.grit.playing_motion
        l.vr_start_pending
    × IsTimed l.mode l.move_step l.mode_step
    × IsSelecting cfg.motion_count l.selected_motion_index l.pending_motion_index l.loaded_motion
    × IsBlending l.blend_start l.blend_kp_start l.blend_kd_start
    × (l.mode ≡ Mode.move_to_default → length l.move_start ≡ dof)

-- A point within a round that began in mode `mode`, before its command is sent.
abbrev pub IsAt {ℓ} :
    {F : Type ℓ} → LoopConfig F → Mode → RobotState F → List (Command F) → Loop F → Type ℓ
IsAt cfg mode state sent r =
    IsLoop cfg r × (r.mode ≡ mode) × (r.state ≡ state) × (r.transport.sent ≡ sent)

-- What is relied on of a round's inputs: `receive` throws or gives a state of the right sizes, as
-- `read_array` checks, and so does the loader of motions.
pub record IsInputs {ℓ} {F : Type ℓ} (i : Inputs F) : Type ℓ where
  pub receives : Ensures (λ came. came ≡ true → IsRobotState i.received.0) i.received.1
  pub loads : (result : Result (Motion F)) → i.load_done ≡ some result → Ensures IsMotion result

-- A command with 29 values in each array.
pub record IsCommand {ℓ} {F : Type ℓ} (c : Command F) : Type 0 where
  pub q_size : length c.q_des ≡ dof
  pub qd_size : length c.qd_des ≡ dof
  pub kp_size : length c.kp ≡ dof
  pub kd_size : length c.kd ≡ dof

-- At most one more command than `sent`.
abbrev pub Logged {ℓ} : {F : Type ℓ} → List (Command F) → Loop F → Type ℓ
Logged {F = F} sent r =
    (r.transport.sent ≡ sent) ⊎ ((c : Command F) × (r.transport.sent ≡ c ∷ sent) × IsCommand c)
