-- ===== src/Tests/Intake.antt =====
-- A byte of garbage and a frame in one read, and the summary after it.
use ros2_dji_serial_bridge.Base.{◌<◌, ◌^◌, ◌≡◌, refl, arith, true, false, ◌∷◌}
use ros2_dji_serial_bridge.Base.Int.{pos}
use ros2_dji_serial_bridge.Node.State.{Log}
use ros2_dji_serial_bridge.Node.Receive.{Rx, process_rx_buffer}
use ros2_dji_serial_bridge.Node.Diagnostics.{summary, diagnostics_line, print_diagnostics}
use ros2_dji_serial_bridge.Node.ReadLoop.{
  ReadResult, PollResult, Turn, take_chunk, after_read, read_input, read_turn,
}
use ros2_dji_serial_bridge.Node.System.{System, Step, Reach, launched, on_system}
use ros2_dji_serial_bridge.Node.System.Balance.{IsBalanced}
use ros2_dji_serial_bridge.Node.System.Intake.{bytes_taken, Reach-IsBalanced}
use ros2_dji_serial_bridge.Node.System.Summary.{SummaryTrue, Reach-SummaryTrue}
use ros2_dji_serial_bridge.Tests.Data.{node, ping_frame, parameters, platform}
use ros2_dji_serial_bridge.Tests.Startup.{keep, started, configured_device, construct_test}
use ros2_dji_serial_bridge.Tests.Threads.{to_float}

abbrev noisy_frame : PollResult
noisy_frame = PollResult.events true false (ReadResult.bytes (9 ∷ ping_frame)) (pos 1000000)

abbrev read_frame : Rx
read_frame = process_rx_buffer (take_chunk (9 ∷ ping_frame) (pos 1000000) (launched started).rx)

abbrev summed : System
summed = on_system print_diagnostics (record { rx = read_frame; reading = true })

frame_turn : read_turn 10 noisy_frame (launched started).rx ≡ Turn.next read_frame
frame_turn = unfold read_turn read_input after_read in refl

abbrev frame_run : Reach 10 to_float (launched started) summed
frame_run =
    Reach.later
      (Reach.later Reach.here
        (Step.read noisy_frame read_frame refl (omega arith, omega arith) frame_turn))
      Step.timer

Reach-IsBalanced_example : IsBalanced (bytes_taken frame_run) summed.rx
Reach-IsBalanced_example =
    Reach-IsBalanced keep platform parameters 10 to_float configured_device (pos 5) started summed
      construct_test frame_run

few_bytes : bytes_taken frame_run < 2 ^ 64
unfolding bytes_taken
few_bytes = omega arith

Reach-SummaryTrue_example : SummaryTrue summed.rx.node (diagnostics_line summed.rx.node)
Reach-SummaryTrue_example =
    Reach-SummaryTrue keep platform parameters 10 to_float configured_device (pos 5) started summed
      construct_test frame_run few_bytes

-- The first bytes and a frame come between the two loads of `frames_rx`: the summary of flowing traffic
-- with no bytes and no frames.
late_frame_test : summary 1 node ≡ Log.diag_flowing 0 0 0 0 0 0 0 0 0 0 0
late_frame_test = refl
