-- ===== src/Tests/Locomotion.antt =====
-- The theorems on the locomotion policy (g1_sim2real/src/g1_npz_policy.cpp) at concrete policies.
use grit_deploy_onboard_g.Prelude.{
  ℕ, ◌≡◌, refl, false, some, List, ◌++◌, length, drop, replicate, Result, ok, Ensures, returned,
}
use grit_deploy_onboard_g.Segment.{dof}
use grit_deploy_onboard_g.Locomotion.{
  StickInput, loco_history_length, loco_frame_dim, no_command, make_frame, repeat_frame, reset,
  step,
}
use grit_deploy_onboard_g.Geometry.{Vec3}
use grit_deploy_onboard_g.Locomotion.Control.{Driven, IsReady, reset-IsReady, step-IsReady}
use grit_deploy_onboard_g.Tests.Values.{
  whole, walker, walker-IsLocomotion, standing, standing-IsRobotState,
}

walker-IsReady : IsReady walker
walker-IsReady = record { parts = walker-IsLocomotion; history = refl }

-- The left stick pushed forward.
abbrev forward : StickInput ℕ
forward = record { left_x = 0; left_y = 5; right_x = 0 }

-- A model that answers every observation with 29 twos.
abbrev twos : List ℕ → Result (List ℕ)
twos observation = ok (replicate dof 2)

reset-IsReady_example :
    Ensures
      (λ q.
        IsReady q
        × (q.previous_command ≡ no_command)
        × (q.last_action ≡ replicate dof 0)
        × ((frame : List ℕ) × (q.history ≡ repeat_frame loco_history_length frame)))
      (reset standing walker)
reset-IsReady_example = reset-IsReady standing walker standing-IsRobotState walker-IsLocomotion

step-IsReady_example :
    Ensures
      (λ r.
        IsReady r.0
        × (length r.1 ≡ dof)
        × ((command : Vec3 ℕ) × Driven false standing
              (some forward)
              walker
              command
              r.0.previous_command
            × ((frame : List ℕ) × (make_frame standing command
                    (record walker { previous_command = r.0.previous_command })
                  ≡ ok frame)
                × (r.0.history ≡ drop loco_frame_dim walker.history ++ frame))))
      (step twos standing false (some forward) walker)
step-IsReady_example =
    step-IsReady twos (λ o. returned tt) standing false (some forward) walker standing-IsRobotState
      walker-IsReady
