-- ===== src/Lib.antt =====
-- The on-board programs of the G1 robot: a bridge between the robot's message bus and a policy process
-- (g1_sim2real/src/g1_udp_bridge.cpp), and the policy process itself (g1_sim2real/src/
-- g1_npz_policy.cpp, with npz_reader.cpp and vr_motion_client.cpp). The bridge sends the robot's state
-- to the policy in datagrams, on a schedule counted in the robot's ticks; the policy answers with joint
-- targets and gains, which the bridge checks and hands to the motors.
--
-- The files:
--   Prelude, Prelude/*: shared helpers. Prelude/Results models exceptions: `ok`, a `runtime_error`
--     that can be caught, `out_of_bounds` for an access that C++ leaves undefined, and `diverged` for a
--     loop that is out of fuel. `Ensures P m` says that `m` is a value with P or a `runtime_error`.
--   Floats: the floating-point operations as an interface. Yaml, Yaml/Reads: yaml-cpp's nodes as an
--     interface, and what is relied on.
--   Stateful: code that changes an object and may throw. Stateful/Outcome: what it guarantees.
--   Geometry: `Vec3`, `Quat` and their functions. Geometry/Totality: they return or throw.
--   Segment: `Motion`, `ReferenceSegment`, `finite_difference_features`, `build_segment`.
--     Segment/Shape, Segment/Transition and Segment/Build: the contents and sizes of their arrays.
--   Grit: `RobotState`, `VrPoseFrame` and `GritPolicy`. Grit/Playback: `initialize_default`,
--     `play_motion`, `return_default`, `follow_robot_yaw_while_holding_default`, `push_proprio`, `step`.
--     Grit/Stream: `append_stream_frame`, `append_vr_frame`, `start_vr_session`, `stop_vr`.
--     Grit/Invariant, Grit/Buffers, Grit/Control, Grit/Growth, Grit/Horizon, Grit/Session: their theorems.
--   Locomotion: `LocomotionPolicy` with its commands, `make_frame`, `reset` and `step`, and
--     `LocomotionInferenceModel::infer`. Locomotion/Control: its observations and commands.
--   Transport: `RobotTransport`'s counters, announcements and commands. Transport/Packing: the
--     arrays of a command. Transport/Packet: `read_array` and
--     the checks of a datagram; Transport/Receive: `receive`; Transport/Opened and
--     Transport/Received: what it gives.
--   Npz: `NpyArray`. Npz/Header: `parse_npy`; Npz/Archive: `NpzArchive`; Npz/Motions: `load_motion` and
--     `default_motion`. Their theorems: Npz/Sizes, Npz/Reading, Npz/Shapes, Npz/Loaded.
--   Vr: `VrMotionClient`'s reading of messages. Vr/Control: `poll_operator_input`; Vr/Poses:
--     `poll_pose_frames`; Vr/Heard, Vr/Sticks and Vr/Frames: what they give.
--   Loop: the local variables of the policy's `main`, its modes and the inputs of a round. Loop/Monad: code
--     that changes them. Loop/Polling: edges, VR client, background loading.
--     Loop/WholeBody: the branch for the whole-body mode. Loop/Modes: the other modes, a round.
--     Loop/Runs: runs and exits. Their theorems: Loop/Invariant, Loop/Quiet,
--     Loop/Session, Session/Triggers, Loop/Stream, Loop/Rounds, Loop/Turns, Loop/Drives, Loop/Iterate,
--     Runs/Start, Runs/Damped, Runs/Arrival.
--     Loop/Surroundings: a round's inputs from the transport and the loader.
--   Wire: the datagrams, `encode_packet` of the policy, `encode_datagram` and `decode_datagram` of the
--     bridge. Wire/Bytes, Wire/RoundTrip and Wire/Checks: their theorems.
--   Bridge/Ticks: `update_lowstate_tick`; Ticks/Schedule and Ticks/Runs: its theorems.
--   Bridge/Arrays: `read_array_as_double`; Arrays/Bounds: its bounds.
--   Bridge/Receiver: a round of `UdpLatestReceiver::recv_loop`; Receiver/Batch: what it delivers.
--   Bridge/Feedback: `RobotFeedback`; Feedback/Queue: its queue against a list.
--   Bridge/Checksum: `crc32_core`.
--   Bridge/Commands: the messages to the motors and `read_command`; Commands/Handler: the state of the
--     command path, `on_udp_command`, the watchdog; Commands/Lifecycle: the handoff, the release of the
--     motion service, the shutdown, and the steps of the threads; their children: the theorems.
--   Bridge/Samples: `on_lowstate`, `process_lowstate_sample` and the sender's locked blocks, with the
--     steps of the threads; Samples/Sound: what reaches the policy.
--   Joints: `source_indices`, `build_index_map`, `build_source_indices`; Joints/Index and Joints/Inverse:
--     the index lists of two joint orders are inverse to each other.
--   Tests: concrete inputs.
--
-- Conventions. Numbers are natural numbers, and a machine word keeps its wrap-around written out where
-- it can wrap: the frame count of `build_segment` wraps at 2^64 and the frame indices of
-- `finite_difference_features` at 2^32, so the policy's invariant has fewer than 2^30 configured
-- transition steps, and motions without velocities have fewer than 2^30 frames. A member function takes the object's record and returns the new one. What a handler logs
-- is left out. The one loop that could run on, the padding of `start_vr_session`, has 14 rounds of
-- fuel: each round lengthens the future by a frame and it stops at 13. The state of the bridge is the
-- part of the class's members that the modelled operations touch; an operation under a mutex is one
-- step.
--
-- Not modelled: sockets, threads, timers, signals and the terminal; the contents of the bridge's state
-- messages, its timer mode and its buttons; the configuration files and options, but
-- for the default motion; the text of the policy's commands; the listing of motion files; the requests of
-- the VR client; statistics; the gain tables of the locomotion
-- policy's constructor, whose action scale is a field of any 29 values. The SDK, yaml-cpp, zlib and
-- ONNX Runtime are parameters.
pub mod Prelude
pub mod Stateful
pub mod Floats
pub mod Geometry
pub mod Segment
pub mod Grit
pub mod Locomotion
pub mod Transport
pub mod Npz
pub mod Loop
pub mod Vr
pub mod Wire
pub mod Yaml
pub mod Joints
pub mod Bridge
pub mod Tests
