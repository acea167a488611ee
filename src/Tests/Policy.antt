-- ===== src/Tests/Policy.antt =====
-- The theorems on the whole-body policy (g1_sim2real/src/g1_npz_policy.cpp) at concrete policies.
use grit_deploy_onboard_g.Prelude.{
  take, drop, ◌*◌, ◌++◌, ℕ, suc, ◌+◌, ◌≤◌, ◌<◌, ◌≡◌, ◌⊎◌, refl, arith, true, false, List, length,
  replicate, max, Result, ok, Ensures, returned, ◌>>=◌,
}
use grit_deploy_onboard_g.Segment.Transition.{transition_joints}
use grit_deploy_onboard_g.Segment.{concat, dof, build_segment}
use grit_deploy_onboard_g.Segment.Shape.{IsSegment}
use grit_deploy_onboard_g.Segment.Build.{build_segment-IsSegment}
use grit_deploy_onboard_g.Grit.{GritPolicy, last_context_offset, high_watermark, future_horizon}
use grit_deploy_onboard_g.Grit.Playback.{play_motion, initialize_default, step}
use grit_deploy_onboard_g.Grit.Stream.{append_vr_frame, start_vr_session, stop_vr}
use grit_deploy_onboard_g.Grit.Invariant.{IsPolicy}
use grit_deploy_onboard_g.Grit.Control.{
  step-IsPolicy, initialize_default-IsPolicy, play_motion-IsPolicy,
}
use grit_deploy_onboard_g.Grit.Horizon.{append_vr_frame-IsPolicy}
use grit_deploy_onboard_g.Grit.Growth.{vr_joints}
use grit_deploy_onboard_g.Grit.Session.{
  first_joints, start_vr_session-IsPolicy, restart-drops_first_frame,
}
use grit_deploy_onboard_g.Tests.Values.{
  whole, origin, upright, still, still-IsMotion, policy_at-IsConfigured, held, walking,
  walking-IsPolicy, streaming, streaming-IsPolicy, standing, standing-IsRobotState, pose,
}

-- A model that answers every input with 29 twos.
abbrev twos : List ℕ → List ℕ → Result (List ℕ)
twos reference proprio = ok (replicate dof 2)

step-IsPolicy_example :
    Ensures (λ r. IsPolicy r.0 × (length r.1 ≡ dof)) (step twos standing walking)
step-IsPolicy_example =
    step-IsPolicy twos (λ r h. returned tt) standing walking standing-IsRobotState walking-IsPolicy

initialize_default-IsPolicy_example : Ensures IsPolicy (initialize_default standing walking)
initialize_default-IsPolicy_example =
    initialize_default-IsPolicy standing walking standing-IsRobotState
      (policy_at-IsConfigured (held 21 4) false)

play_motion-IsPolicy_example :
    Ensures
      (λ q.
        IsPolicy q
        × (q.playing_motion ≡ true)
        × (q.vr_streaming ≡ false)
        × (q.segment.index ≡ 0)
        × (q.segment.frames ≡ walking.transition_steps + walking.motion.frames)
        × (drop (walking.transition_steps * dof) q.segment.joints ≡ walking.motion.joint_pos))
      (play_motion standing walking)
play_motion-IsPolicy_example = play_motion-IsPolicy standing walking walking-IsPolicy

build_segment-IsSegment_example :
    Ensures
      (λ s.
        IsSegment s
        × (s.index ≡ 0)
        × (s.frames ≡ 20 + 1)
        × (s.joints
            ≡ concat (transition_joints (replicate 29 5) (take dof still.joint_pos) 20)
              ++ still.joint_pos)
        × (drop (20 * dof) s.joints ≡ still.joint_pos))
      (build_segment still (replicate 29 5) origin upright 20)
build_segment-IsSegment_example =
    build_segment-IsSegment still (replicate 29 5) origin upright 20 still-IsMotion refl
      (omega arith)

append_vr_frame-IsPolicy_example :
    Ensures
      (λ r.
        IsPolicy r.0
        × (r.0.vr_streaming ≡ true)
        × (r.0.playing_motion ≡ false)
        × ((r.1 ≡ false)
              × (r.0 ≡ streaming)
              × ((true ≡ false) ⊎ (high_watermark ≤ future_horizon streaming.segment))
            ⊎ (r.1 ≡ true)
              × (true ≡ true)
              × (future_horizon streaming.segment < high_watermark)
              × (future_horizon r.0.segment ≡ suc (future_horizon streaming.segment))
              × (r.0.segment.frames ≤ 49)
              × ((rest : List ℕ) × (r.0.segment.joints ≡ rest ++ vr_joints pose streaming))))
      (append_vr_frame pose streaming)
append_vr_frame-IsPolicy_example = append_vr_frame-IsPolicy pose streaming streaming-IsPolicy

start_vr_session-IsPolicy_example :
    Ensures
      (λ q.
        IsPolicy q
        × (q.vr_streaming ≡ true)
        × (q.playing_motion ≡ false)
        × (last_context_offset ≤ future_horizon q.segment)
        × (future_horizon walking.segment < high_watermark
            → future_horizon q.segment
              ≡ suc (max last_context_offset (future_horizon walking.segment)))
        × (future_horizon walking.segment < high_watermark
            → (rest : List ℕ) × (q.segment.joints ≡ rest ++ first_joints pose walking))
        × (high_watermark ≤ future_horizon walking.segment → q.segment ≡ walking.segment))
      (start_vr_session pose walking)
start_vr_session-IsPolicy_example = start_vr_session-IsPolicy pose walking walking-IsPolicy

restart-drops_first_frame_example :
    Ensures
      (λ r.
        (r.vr_streaming ≡ true)
        × (q : GritPolicy ℕ) × (stop_vr streaming ≡ ok q)
        × (r.segment ≡ q.segment))
      (stop_vr streaming >>= λ q. start_vr_session pose q)
restart-drops_first_frame_example =
    restart-drops_first_frame pose streaming streaming-IsPolicy refl (omega arith)
