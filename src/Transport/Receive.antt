-- ===== src/Transport/Receive.antt =====
-- `RobotTransport::receive` (g1_sim2real/src/g1_npz_policy.cpp): the robot's state from the last datagram
-- that waits. What has been written into the state stays there where it throws.
use grit_deploy_onboard_g.Prelude.{
  ℕ, Bool, true, false, ◌&&◌, List, [], ◌∷◌, if◌then◌else◌, Result, at, require,
}
use grit_deploy_onboard_g.Stateful.{Stateful, ◌>>=◌, ◌>>◌, give, get, modify, call, throw}
use grit_deploy_onboard_g.Floats.{Floats}
use grit_deploy_onboard_g.Geometry.{normalized}
use grit_deploy_onboard_g.Segment.{dof}
use grit_deploy_onboard_g.Grit.{RobotState}
use grit_deploy_onboard_g.Yaml.{Yaml, YamlFloats}
use grit_deploy_onboard_g.Bridge.Receiver.{Datagram}
use grit_deploy_onboard_g.Transport.Packet.{
  StatePacket, read_array, read_button, read_stick, open_packet,
}

-- What the socket shows: whether `poll` finds it readable, the datagrams that wait, and whether the
-- `recvfrom` after them fails for another reason than that there are no more.
pub record Waiting : Type 0 where
  pub readable : Bool
  pub datagrams : List Datagram
  pub fails : Bool

module _ {ℓ} {F : Type ℓ} where
  -- The loop of `recvfrom`: the bytes of the last datagram, and its time in the state.
  unfoldable pub drain_states : List Datagram → List ℕ → Stateful (RobotState F) (List ℕ)
  drain_states [] packet = give packet
  drain_states (datagram ∷ waiting) packet = do
    modify (λ s. record s { receive_time_ns = datagram.recv_time })
    drain_states waiting datagram.bytes

module _ {ℓ κ} {N : Type κ} {F : Type ℓ} ⦃fl : Floats F⦄ ⦃yaml : Yaml N⦄
    ⦃floats : YamlFloats N F⦄ where
  module _ (of_f4 : List ℕ → F) where
    unfoldable pub read_joints : StatePacket N → Stateful (RobotState F) (Unit {0})
    read_joints p = do
      modify (λ s. record s { seq = p.seq })
      q ← call (read_array of_f4 p.meta p.payload "q" dof)
      modify (λ s. record s { q = q })
      dq ← call (read_array of_f4 p.meta p.payload "dq" dof)
      modify (λ s. record s { dq = dq })

    unfoldable pub read_imu : StatePacket N → Stateful (RobotState F) (Unit {0})
    read_imu p = do
      quat ← call (read_array of_f4 p.meta p.payload "quat_wxyz" 4)
      gyro ← call (read_array of_f4 p.meta p.payload "gyro" 3)
      w ← call (at quat 0)
      x ← call (at quat 1)
      y ← call (at quat 2)
      z ← call (at quat 3)
      unit ← call (normalized (record { w = w; x = x; y = y; z = z }))
      modify (λ s. record s { quat = unit })
      gx ← call (at gyro 0)
      gy ← call (at gyro 1)
      gz ← call (at gyro 2)
      modify (λ s. record s { gyro = record { x = gx; y = gy; z = gz } })

  unfoldable pub read_remote : N → Stateful (RobotState F) (Unit {0})
  read_remote meta = do
    start ← call (read_button meta "start")
    modify (λ s. record s { start = start })
    a ← call (read_button meta "A")
    modify (λ s. record s { a = a })
    b ← call (read_button meta "B")
    modify (λ s. record s { b = b })
    x ← call (read_button meta "stop")
    modify (λ s. record s { x = x })
    left ← call (read_button meta "left")
    modify (λ s. record s { left = left })
    right ← call (read_button meta "right")
    modify (λ s. record s { right = right })

  unfoldable pub read_sticks : N → Stateful (RobotState F) (Unit {0})
  read_sticks meta = do
    lx ← call (read_stick meta "lx")
    modify (λ s. record s { lx = lx })
    ly ← call (read_stick meta "ly")
    modify (λ s. record s { ly = ly })
    rx ← call (read_stick meta "rx")
    modify (λ s. record s { rx = rx })
    ry ← call (read_stick meta "ry")
    modify (λ s. record s { ry = ry })
    s ← get
    call (
        require (fl.isfinite s.lx && (fl.isfinite s.ly && (fl.isfinite s.rx && fl.isfinite s.ry)))
          "Remote stick state contains a non-finite value")

  module _ (crc32 : ℕ → List ℕ → ℕ) (yaml_load : List ℕ → Result N) (of_f4 : List ℕ → F) where
    unfoldable pub read_state : List ℕ → Stateful (RobotState F) Bool
    read_state packet = do
      p ← call (open_packet crc32 yaml_load packet)
      read_joints of_f4 p
      read_imu of_f4 p
      read_remote p.meta
      read_sticks p.meta
      give true

    -- The waiting datagrams, then the state of the last one.
    unfoldable pub take_state : Waiting → Stateful (RobotState F) Bool
    take_state waiting = do
      packet ← drain_states waiting.datagrams []
      if waiting.fails then throw "state recvfrom failed" else read_state packet

    unfoldable pub receive : Waiting → Stateful (RobotState F) Bool
    receive waiting = if waiting.readable then take_state waiting else give false
