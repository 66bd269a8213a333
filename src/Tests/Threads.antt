-- ===== src/Tests/Threads.antt =====
-- The read thread and the whole node.
use ros2_dji_serial_bridge.Base.{ℕ, ◌*◌, ◌^◌, ◌<◌, ◌+◌, some, ◌≡◌, refl, arith, true, false, []}
use ros2_dji_serial_bridge.Base.Int.{pos, ◌+ℤ◌}
use ros2_dji_serial_bridge.Node.State.{Ping}
use ros2_dji_serial_bridge.Node.Tally.{tally}
use ros2_dji_serial_bridge.Node.Consistent.{IsConsistent}
use ros2_dji_serial_bridge.Node.Receive.Stream.{rx}
use ros2_dji_serial_bridge.Node.Callbacks.{ping_callback}
use ros2_dji_serial_bridge.Node.Callbacks.Frames.{IsNumbered}
use ros2_dji_serial_bridge.Node.ReadLoop.{PollResult, ReadResult, read_turn}
use ros2_dji_serial_bridge.Node.ReadLoop.Laws.{IsReady, IsPoll}
use ros2_dji_serial_bridge.Node.ReadLoop.Silence.{silence}
use ros2_dji_serial_bridge.Node.Start.{Port, wire_ns}
use ros2_dji_serial_bridge.Node.System.Ending.{last_bytes, HasEnded, Reach-destroy}
use ros2_dji_serial_bridge.Node.System.Exits.{Left}
use ros2_dji_serial_bridge.Node.System.Intake.{bytes_taken}
use ros2_dji_serial_bridge.Node.System.Silent.{silent_turns, IsCounted, Reach-IsCounted}
use ros2_dji_serial_bridge.Node.System.{destroy, System, Step, Reach, launched, on_system}
use ros2_dji_serial_bridge.Node.System.Numbered.{Reach-IsNumbered}
use ros2_dji_serial_bridge.Node.System.Watch.{IsFollowed}
use ros2_dji_serial_bridge.Node.System.Follows.{Reach-IsFollowed}
use ros2_dji_serial_bridge.Node.Receive.{frame_stamp}
use ros2_dji_serial_bridge.Node.System.Stamps.{IsInt64, Reach-frame_stamp}
use ros2_dji_serial_bridge.Tests.Receiver.{ping_header}
use ros2_dji_serial_bridge.Tests.Data.{node, ping_frame, parameters, platform, takes_all, fails}
use ros2_dji_serial_bridge.Tests.Startup.{configured_device, keep, started, construct_test}

abbrev pub to_float : ℕ → ℕ
to_float x = x

abbrev ping : Ping
ping = record { stamp = pos 0; number = 7 }

-- The frame arrives in one read, and the device is well.
abbrev frame_arrives : PollResult
frame_arrives = PollResult.events true false (ReadResult.bytes ping_frame) (pos 1000)

frame-IsPoll : IsPoll frame_arrives
frame-IsPoll = (omega arith, omega arith)

node-IsConsistent : IsConsistent node
unfolding tally
node-IsConsistent = ground arith

node-IsReady : IsReady (rx [] [] node)
node-IsReady = record {
  parallel = refl;
  bytes = tt;
  bounded = omega arith;
  consistent = node-IsConsistent;
}

-- A silent poll; a ping whose write fails; a ping that goes out; a summary; end of the port.
abbrev silent_state : System
silent_state = on_system (silence 10 1) (launched started)

abbrev after_pings : System
after_pings =
    on_system (ping_callback takes_all ping) (on_system (ping_callback fails ping) silent_state)

unfoldable run : Reach 10 to_float (launched started) after_pings
run =
    Reach.later
      (Reach.later
        (Reach.later Reach.here (
          Step.read PollResult.timeout (rx [] [] (silence 10 1 started)) refl tt
            (unfold read_turn in refl)))
        (Step.ping fails ping (omega arith)))
      (Step.ping takes_all ping (omega arith))

Reach-IsCounted_example : IsCounted (bytes_taken run) (silent_turns run) after_pings
Reach-IsCounted_example =
    Reach-IsCounted keep platform parameters 10 to_float configured_device (pos 5) started
      after_pings construct_test run

silent_turns_test : silent_turns run ≡ 1
unfolding silent_turns run
silent_turns_test = refl

Reach-IsNumbered_example : IsNumbered after_pings.rx.node
Reach-IsNumbered_example =
    Reach-IsNumbered keep platform parameters 10 to_float configured_device (pos 5) started
      after_pings construct_test run

Reach-IsFollowed_example : IsFollowed after_pings.rx.node
Reach-IsFollowed_example =
    Reach-IsFollowed keep platform parameters 10 to_float configured_device (pos 5) started
      after_pings construct_test run

Reach-frame_stamp_example :
    (after_pings.rx.node.byte_wire_ns ≡ wire_ns (pos 115200))
    × (10 * after_pings.rx.node.byte_wire_ns < 2 ^ 50)
    × IsInt64 (frame_stamp (pos 5000) 10 after_pings.rx.node)
    × (frame_stamp (pos 5000) 10 after_pings.rx.node +ℤ pos (10 * after_pings.rx.node.byte_wire_ns)
        ≡ pos 5000)
Reach-frame_stamp_example =
    Reach-frame_stamp keep platform parameters 10 to_float configured_device (pos 5) started
      after_pings ping_header 5000 construct_test run (omega arith) (omega arith)

Reach-destroy_example :
    Left true after_pings.rx.node
    × HasEnded
        (bytes_taken run + last_bytes (some frame_arrives) true)
        (destroy 10 (some frame_arrives) after_pings Port.opened).0
Reach-destroy_example =
    Reach-destroy keep platform parameters 10 to_float configured_device (pos 5) started after_pings
      (some frame_arrives) Port.opened construct_test run
