-- ===== src/Tests/Vr.antt =====
-- Tests of the VR client (g1_sim2real/src/vr_motion_client.cpp).
use grit_deploy_onboard_g.Prelude.{
  ℕ, true, false, ◌≡◌, some, List, [], ◌∷◌, replicate, All, Returns,
}
use grit_deploy_onboard_g.Stateful.Outcome.{Outcome}
use grit_deploy_onboard_g.Vr.{VrClient}
use grit_deploy_onboard_g.Vr.Control.{ControlPart, failed, part, poll_operator_input}
use grit_deploy_onboard_g.Vr.Heard.{Since}
use grit_deploy_onboard_g.Vr.Sticks.{IsClient, IsPolled, poll_operator_input-IsPolled}
use grit_deploy_onboard_g.Vr.Poses.{Reply, reply, poll_pose_frames}
use grit_deploy_onboard_g.Vr.Frames.{IsPose, poll_pose_frames-IsPose}
use grit_deploy_onboard_g.Tests.Values.{whole}
use grit_deploy_onboard_g.Tests.Npz.{
  first, nodes, nodes-IsYaml, node_floats, node_floats-IsYamlFloats, load_root, load_root-Always,
}

abbrev new_client : VrClient ℕ
new_client = record {
  previous_x = false;
  previous_a = false;
  previous_b = false;
  previous_y = false;
  latest_sticks_valid = false;
  latest_left_x = 0;
  latest_left_y = 0;
  latest_right_x = 0;
  last_control_receive_ns = 0;
}

new_client-IsClient : IsClient new_client
new_client-IsClient = λ (valid : false ≡ true). absurd (cc)

abbrev one_message : List ControlPart
one_message = part (65 ∷ []) false 5 ∷ failed ∷ []

poll_operator_input-IsPolled_example :
    Outcome
      (λ input c.
        IsClient c
        × Since {N = ℕ} load_root one_message 0 c.last_control_receive_ns
        × (input.sticks_valid ≡ true → IsPolled 10 input c))
      (λ c. ⊥)
      (poll_operator_input {N = ℕ} load_root one_message 10 new_client)
poll_operator_input-IsPolled_example =
    poll_operator_input-IsPolled nodes-IsYaml node_floats-IsYamlFloats load_root load_root-Always
      one_message 10 new_client new_client-IsClient

abbrev one_reply : List Reply
one_reply = reply (65 ∷ []) true (some (replicate 144 1)) 9 ∷ []

poll_pose_frames-IsPose_example :
    Returns (λ p. All IsPose p.frames) (poll_pose_frames first load_root one_reply 0)
poll_pose_frames-IsPose_example =
    poll_pose_frames-IsPose first nodes-IsYaml load_root load_root-Always one_reply 0
