-- ===== src/Loop/Quiet.antt =====
-- The first part of a round (g1_sim2real/src/g1_npz_policy.cpp, `main`) keeps the invariant, the mode
-- and what has been sent.
use Prim.Native.String.{String}
use mathlib.Core.Path.{subst}
use grit_deploy_onboard_g.Locomotion.{LocomotionPolicy}
use grit_deploy_onboard_g.Prelude.{
  ℕ, ◌+◌, ◌-◌, ◌%◌, ◌<◌, ◌≡◌, inl, refl, arith, Bool, ◌&&◌, ◌||◌, Option, none, some, List, is_some,
  ◌==◌, if◌then◌else◌, if-split, Result, Ensures, returned, thrown,
}
use grit_deploy_onboard_g.Floats.{Floats}
use grit_deploy_onboard_g.Segment.{Motion}
use grit_deploy_onboard_g.Segment.Shape.{IsMotion}
use grit_deploy_onboard_g.Grit.{RobotState, GritPolicy, select_motion}
use grit_deploy_onboard_g.Grit.Invariant.{IsConfigured}
use grit_deploy_onboard_g.Transport.{Command, announce}
use grit_deploy_onboard_g.Loop.{Mode, LoopConfig, Inputs, Loop}
use grit_deploy_onboard_g.Loop.Polling.{
  note_vr, finish_loading, poll_loading, take_selection, select_loaded, request_motion,
}
use grit_deploy_onboard_g.Stateful.Outcome.{Outcome, gave, Outcome-split}
use grit_deploy_onboard_g.Loop.Invariant.{IsAt, IsRunning, IsSelecting, Logged}

-- The whole-body mode and the counters are as they were.
abbrev pub SameSteps {ℓ} : {F : Type ℓ} → Loop F → Loop F → Type 0
SameSteps l r =
    (r.whole_body_mode ≡ l.whole_body_mode)
    × (r.move_step ≡ l.move_step)
    × (r.mode_step ≡ l.mode_step)

-- A point of the polling.
abbrev pub IsPolled {ℓ} :
    {F : Type ℓ} → LoopConfig F → Mode → RobotState F → List (Command F) → Loop F → Loop F → Type ℓ
IsPolled cfg mode state sent l r = IsAt cfg mode state sent r × SameSteps l r

module _ {ℓ} {F : Type ℓ} (cfg : LoopConfig F) where
  IsSelecting-none :
      {selected : ℕ} {pending : Option ℕ} {loaded : Option (Motion F)}
      → IsSelecting cfg.motion_count selected pending loaded
      → IsSelecting cfg.motion_count selected none loaded
  IsSelecting-none v = record {
    selection = v.selection;
    loading = λ index e. cc;
    shaped = v.shaped;
  }

  finish_loading-IsAt :
      {mode : Mode} {state : RobotState F} {sent : List (Command F)} (l : Loop F)
      {result : Result (Motion F)}
      → Ensures IsMotion result
      → IsAt cfg mode state sent l
      → Outcome (λ _. IsPolled cfg mode state sent l) (Logged sent) (finish_loading (some result) l)
  unfolding finish_loading
  finish_loading-IsAt l (returned {a = motion} shaped) v = gave (
    (
      (
        v.0.0,
        v.0.1,
        v.0.2,
        record {
          selection = v.0.3.selection;
          loading = v.0.3.loading;
          shaped = λ (other : Motion F) (e : some motion ≡ some other).
              let same : motion ≡ other = cc in subst IsMotion same shaped;
        },
        v.0.4,
        v.0.5,
      ),
      v.1,
      v.2,
      v.3,
    ),
    (refl, refl, refl),
  )
  finish_loading-IsAt l thrown v = gave (
    ((v.0.0, v.0.1, v.0.2, IsSelecting-none v.0.3, v.0.4, v.0.5), v.1, v.2, v.3),
    (refl, refl, refl),
  )

  pub poll_loading-IsAt :
      (load_done : Option (Result (Motion F))) {mode : Mode} {state : RobotState F}
      {sent : List (Command F)} (l : Loop F)
      → ((result : Result (Motion F)) → load_done ≡ some result → Ensures IsMotion result)
      → IsAt cfg mode state sent l
      → Outcome (λ _. IsPolled cfg mode state sent l) (Logged sent) (poll_loading load_done l)
  unfolding poll_loading finish_loading
  poll_loading-IsAt none l loads v =
      Outcome-split (is_some l.pending_motion_index && l.future_valid) _ _
        (λ _. gave (v, (refl, refl, refl))) (λ _. gave (v, (refl, refl, refl)))
  poll_loading-IsAt (some result) l loads v =
      Outcome-split (is_some l.pending_motion_index && l.future_valid) _ _
        (λ _. finish_loading-IsAt l (loads result refl) v) (λ _. gave (v, (refl, refl, refl)))

  select_motion-IsConfigured :
      (motion : Motion F) (name : String) (index : ℕ) (p : GritPolicy F)
      → IsMotion motion
      → IsConfigured p
      → IsConfigured (select_motion motion name index cfg.motion_count p)
  unfolding select_motion
  select_motion-IsConfigured motion name index p m v = (m, v.1, v.2, v.3, v.4, v.5, v.6)

  select_motion-IsRunning :
      (motion : Motion F) (name : String) (index : ℕ) {mode : Mode} {p : GritPolicy F}
      {loco : LocomotionPolicy F}
      → IsMotion motion
      → IsRunning mode p loco
      → IsRunning mode (select_motion motion name index cfg.motion_count p) loco
  unfolding select_motion
  select_motion-IsRunning motion name index {p = p} m v = record {
    configured = select_motion-IsConfigured motion name index p m v.configured;
    whole_body = λ on.
        let w = v.whole_body on in
        record {
          configured = select_motion-IsConfigured motion name index p m w.configured;
          segment = w.segment;
          action = w.action;
          history = w.history;
          anchor = w.anchor;
        };
    parts = v.parts;
    ready = v.ready;
  }

  take_selection-IsAt :
      (pending : Option ℕ) (loaded : Option (Motion F)) (ready : Bool) {mode : Mode}
      {state : RobotState F} {sent : List (Command F)} (l : Loop F)
      → IsSelecting cfg.motion_count l.selected_motion_index pending loaded
      → IsAt cfg mode state sent l
      → IsPolled cfg mode state sent l (take_selection cfg pending loaded ready l)
  unfolding take_selection select_motion announce
  take_selection-IsAt none loaded ready l s v = (v, (refl, refl, refl))
  take_selection-IsAt (some index) none ready l s v = (v, (refl, refl, refl))
  take_selection-IsAt (some index) (some motion) ready l s v =
      if-split (IsPolled cfg _ _ _ l) ready
        (λ _. (
          (
            (
              select_motion-IsRunning motion _ index (s.shaped motion refl) v.0.0,
              v.0.1,
              v.0.2,
              record {
                selection = inl (s.loading index refl);
                loading = λ index e. cc;
                shaped = λ motion e. cc;
              },
              v.0.4,
              v.0.5,
            ),
            v.1,
            v.2,
            v.3,
          ),
          (refl, refl, refl),
        ))
        (λ _. (v, (refl, refl, refl)))

  pub select_loaded-IsAt :
      {mode : Mode} {state : RobotState F} {sent : List (Command F)} (l : Loop F)
      → IsAt cfg mode state sent l
      → Outcome (λ _. IsPolled cfg mode state sent l) (Logged sent) (select_loaded cfg l)
  unfolding select_loaded
  select_loaded-IsAt l v =
      gave (take_selection-IsAt l.pending_motion_index l.loaded_motion _ l v.0.3 v)

  -- A requested motion is one of the list.
  pub request_motion-IsAt :
      (ahead : Bool) {mode : Mode} {state : RobotState F} {sent : List (Command F)} (l : Loop F)
      → IsAt cfg mode state sent l
      → Outcome
          (λ _ r. IsAt cfg mode state sent r × (r.whole_body_mode ≡ l.whole_body_mode))
          (Logged sent)
          (request_motion cfg ahead l)
  unfolding request_motion
  request_motion-IsAt ahead l v =
      let n = cfg.motion_count in
      let next =
        if ahead
        then (l.selected_motion_index + 1) % n
        else (l.selected_motion_index + n - 1) % n in
      Outcome-split ((n == 0) || ((n == 1) || is_some l.pending_motion_index)) _ _
        (λ _. gave (v, refl))
        λ many.
          let below : next < n = ground arith in
          gave (
            (
              (
                v.0.0,
                v.0.1,
                v.0.2,
                record {
                  selection = v.0.3.selection;
                  loading = λ index e.
                      let same : next ≡ index = cc in subst (λ (k : ℕ). k < n) same below;
                  shaped = v.0.3.shaped;
                },
                v.0.4,
                v.0.5,
              ),
              v.1,
              v.2,
              v.3,
            ),
            refl,
          )

module _ {ℓ} {F : Type ℓ} ⦃fl : Floats F⦄ (cfg : LoopConfig F) where
  pub note_vr-IsAt :
      (i : Inputs F) {mode : Mode} {state : RobotState F} {sent : List (Command F)} (l : Loop F)
      → IsAt cfg mode state sent l
      → IsPolled cfg mode state sent l (note_vr cfg i l)
  unfolding note_vr
  note_vr-IsAt i l v =
      if-split (IsPolled cfg _ _ _ l) cfg.vr_client (λ _. (v, (refl, refl, refl)))
        (λ _. (v, (refl, refl, refl)))
