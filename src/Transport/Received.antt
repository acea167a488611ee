-- ===== src/Transport/Received.antt =====
-- What `RobotTransport::receive` (g1_sim2real/src/g1_npz_policy.cpp) gives.
use grit_deploy_onboard_g.Prelude.{
  if◌then◌else◌, ℕ, ◌^◌, ◌<◌, ◌≡◌, refl, arith, ◌⊎◌, inl, inr, Bool, true, false, ◌&&◌, List, [],
  ◌∷◌, length, Result, Ensures-require, Ensures-at, All,
}
use grit_deploy_onboard_g.Stateful.{after, throw}
use grit_deploy_onboard_g.Stateful.Outcome.{
  Outcome, gave, threw, Outcome-after, Outcome-call, Outcome-ensures, Outcome-split,
  Outcome-implies,
}
use grit_deploy_onboard_g.Floats.{Floats}
use grit_deploy_onboard_g.Geometry.Totality.{Always, normalized-Always}
use grit_deploy_onboard_g.Segment.{dof}
use grit_deploy_onboard_g.Grit.{RobotState}
use grit_deploy_onboard_g.Grit.Invariant.{IsRobotState}
use grit_deploy_onboard_g.Yaml.{Yaml, YamlFloats}
use grit_deploy_onboard_g.Yaml.Reads.{IsYaml}
use grit_deploy_onboard_g.Bridge.Receiver.{Datagram}
use grit_deploy_onboard_g.Transport.Packet.{StatePacket}
use grit_deploy_onboard_g.Transport.Receive.{
  Waiting, drain_states, read_joints, read_imu, read_remote, read_sticks, read_state, take_state,
  receive,
}
use grit_deploy_onboard_g.Transport.Opened.{
  read_array-length, read_button-Always, read_stick-Always, open_packet-Always,
}

-- 29 positions and 29 velocities.
abbrev Sized {ℓ} : {F : Type ℓ} → List F → List F → Type 0
Sized q dq = (length q ≡ dof) × (length dq ≡ dof)

-- The sticks as the policy uses them.
pub record IsFinite {ℓ} {F : Type ℓ} ⦃fl : Floats F⦄ (s : RobotState F) : Type 0 where
  pub lx : fl.isfinite s.lx ≡ true
  pub ly : fl.isfinite s.ly ≡ true
  pub rx : fl.isfinite s.rx ≡ true
  pub ry : fl.isfinite s.ry ≡ true

module _ {ℓ κ} {N : Type κ} {F : Type ℓ} ⦃fl : Floats F⦄ ⦃yaml : Yaml N⦄ ⦃floats : YamlFloats N F⦄
    (law : IsYaml yaml) (K : Type 0) where
  abbrev Keeps : RobotState F → Type 0
  Keeps r = K → Sized r.q r.dq

  read_joints-Outcome :
      (of_f4 : List ℕ → F) (p : StatePacket N) (s : RobotState F)
      → Keeps s
      → Outcome (λ _ r. Sized r.q r.dq) Keeps (read_joints of_f4 p s)
  unfolding read_joints
  read_joints-Outcome of_f4 p s keeps =
      Outcome-call _ (read_array-length law of_f4 p.meta p.payload "q" dof) keeps λ q hq.
        Outcome-call _ (read_array-length law of_f4 p.meta p.payload "dq" dof)
          (λ k. (hq, (keeps k).1)) λ dq hdq. gave (hq, hdq)

  read_imu-Outcome :
      (of_f4 : List ℕ → F) (p : StatePacket N) (s : RobotState F)
      → Sized s.q s.dq
      → Outcome (λ _ r. Sized r.q r.dq) Keeps (read_imu of_f4 p s)
  unfolding read_imu
  read_imu-Outcome of_f4 p s h =
      Outcome-call _ (read_array-length law of_f4 p.meta p.payload "quat_wxyz" 4) (λ _. h)
        λ quat e.
          Outcome-call _ (read_array-length law of_f4 p.meta p.payload "gyro" 3) (λ _. h)
            λ gyro f.
              Outcome-call _ (Ensures-at quat 0 (omega arith)) (λ _. h)
                λ _ _.
                  Outcome-call _ (Ensures-at quat 1 (omega arith)) (λ _. h)
                    λ _ _.
                      Outcome-call _ (Ensures-at quat 2 (omega arith)) (λ _. h)
                        λ _ _.
                          Outcome-call _ (Ensures-at quat 3 (omega arith)) (λ _. h)
                            λ _ _.
                              Outcome-call _ (normalized-Always _) (λ _. h)
                                λ _ _.
                                  Outcome-call _ (Ensures-at gyro 0 (omega arith)) (λ _. h)
                                    λ _ _.
                                      Outcome-call _ (Ensures-at gyro 1 (omega arith)) (λ _. h)
                                        λ _ _.
                                          Outcome-call _ (Ensures-at gyro 2 (omega arith)) (λ _. h)
                                            λ _ _. gave h

  read_remote-Outcome :
      (meta : N) (s : RobotState F)
      → Sized s.q s.dq
      → Outcome (λ _ r. Sized r.q r.dq) Keeps (read_remote meta s)
  unfolding read_remote
  read_remote-Outcome meta s h =
      let button = read_button-Always law meta in
      Outcome-call _ (button "start") (λ _. h)
        λ _ _.
          Outcome-call _ (button "A") (λ _. h)
            λ _ _.
              Outcome-call _ (button "B") (λ _. h)
                λ _ _.
                  Outcome-call _ (button "stop") (λ _. h)
                    λ _ _.
                      Outcome-call _ (button "left") (λ _. h)
                        λ _ _. Outcome-call _ (button "right") (λ _. h) λ _ _. gave h

  read_sticks-Outcome :
      (meta : N) (s : RobotState F)
      → Sized s.q s.dq
      → Outcome (λ _ r. Sized r.q r.dq × IsFinite r) Keeps (read_sticks meta s)
  unfolding read_sticks
  read_sticks-Outcome meta s h =
      Outcome-call _ (read_stick-Always law meta "lx") (λ _. h)
        λ lx _.
          Outcome-call _ (read_stick-Always law meta "ly") (λ _. h)
            λ ly _.
              Outcome-call _ (read_stick-Always law meta "rx") (λ _. h)
                λ rx _.
                  Outcome-call _ (read_stick-Always law meta "ry") (λ _. h)
                    λ ry _.
                      Outcome-ensures
                        (Ensures-require
                          (fl.isfinite lx && (fl.isfinite ly && (fl.isfinite rx && fl.isfinite ry)))
                          _)
                        (λ _. h)
                        λ _ finite. (
                          h,
                          record {
                            lx = ground arith;
                            ly = ground arith;
                            rx = ground arith;
                            ry = ground arith;
                          },
                        )

  module _ (crc32 : ℕ → List ℕ → ℕ) (yaml_load : List ℕ → Result N)
      (loads : (text : List ℕ) → Always (yaml_load text)) (of_f4 : List ℕ → F) where
    read_state-Outcome :
        (packet : List ℕ) (s : RobotState F)
        → length packet < 2 ^ 32
        → Keeps s
        → Outcome
            (λ came r. (came ≡ true) × Sized r.q r.dq × IsFinite r)
            Keeps
            (read_state crc32 yaml_load of_f4 packet s)
    unfolding read_state
    read_state-Outcome packet s small keeps =
        Outcome-call _ (open_packet-Always crc32 yaml_load loads packet small) keeps λ p _.
          Outcome-after (read_joints-Outcome of_f4 p s keeps) λ _ r h.
            Outcome-after (read_imu-Outcome of_f4 p r h) λ _ r h.
              Outcome-after (read_remote-Outcome p.meta r h) λ _ r h.
                Outcome-after (read_sticks-Outcome p.meta r h) λ _ r h. gave (refl, h.0, h.1)

    take_datagrams :
        (waiting : List Datagram) (packet : List ℕ) (fails : Bool) (s : RobotState F)
        → length packet < 2 ^ 32
        → All (λ d. length d.bytes < 2 ^ 32) waiting
        → Keeps s
        → Outcome
            (λ came r. (came ≡ true) × Sized r.q r.dq × IsFinite r)
            Keeps
            (after (drain_states waiting packet s) λ packet.
              if fails
              then throw "state recvfrom failed"
              else read_state crc32 yaml_load of_f4 packet)
    unfolding drain_states
    take_datagrams [] packet true s small all keeps = threw keeps
    take_datagrams [] packet false s small all keeps = read_state-Outcome packet s small keeps
    take_datagrams (datagram ∷ waiting) packet fails s small all keeps =
        take_datagrams waiting datagram.bytes fails
          (record s { receive_time_ns = datagram.recv_time }) all.0 all.1 keeps

-- A state with 29 positions and velocities and finite sticks, or none, and nothing changed.
abbrev pub IsReceived {ℓ} :
    {F : Type ℓ} ⦃fl : Floats F⦄ → RobotState F → Bool → RobotState F → Type ℓ
IsReceived s came r = ((came ≡ true) × IsRobotState r × IsFinite r) ⊎ ((came ≡ false) × (r ≡ s))

module _ {ℓ κ} {N : Type κ} {F : Type ℓ} ⦃fl : Floats F⦄ ⦃yaml : Yaml N⦄ ⦃floats : YamlFloats N F⦄
    (law : IsYaml yaml) (crc32 : ℕ → List ℕ → ℕ) (yaml_load : List ℕ → Result N)
    (loads : (text : List ℕ) → Always (yaml_load text)) (of_f4 : List ℕ → F) where
  take_state-IsReceived :
      (waiting : Waiting) (s : RobotState F)
      → All (λ d. length d.bytes < 2 ^ 32) waiting.datagrams
      → Outcome
          (IsReceived s)
          (λ r. IsRobotState s → IsRobotState r)
          (take_state crc32 yaml_load of_f4 waiting s)
  unfolding take_state
  take_state-IsReceived waiting s small =
      Outcome-implies
        (take_datagrams law (IsRobotState s) crc32 yaml_load loads of_f4 waiting.datagrams []
          waiting.fails s (omega arith) small (λ v. (v.q, v.dq)))
        (λ came r h. inl (h.0, record { q = h.1.0; dq = h.1.1 }, h.2))
        λ r keeps v. let sized = keeps v in record { q = sized.0; dq = sized.1 }

  -- Whatever waits at the socket, `receive` meets no access out of bounds. Where it returns true, the
  -- state has 29 joint positions, 29 joint velocities and finite sticks; where it returns false, the
  -- state is as before; and where it throws, a state that had 29 of each still has. A datagram is
  -- shorter than 2^32 bytes, YAML's loader returns or throws, and so do yaml-cpp's conversions.
  pub receive-IsReceived :
      (waiting : Waiting) (s : RobotState F)
      → All (λ d. length d.bytes < 2 ^ 32) waiting.datagrams
      → Outcome
          (IsReceived s)
          (λ r. IsRobotState s → IsRobotState r)
          (receive crc32 yaml_load of_f4 waiting s)
  unfolding receive
  receive-IsReceived waiting s small =
      Outcome-split waiting.readable _ _ (λ _. take_state-IsReceived waiting s small)
        λ _. gave (inr (refl, refl))
