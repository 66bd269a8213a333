-- ===== src/Tests/Delivery.antt =====
-- From the bytes that are read to the messages that are published.
use ros2_dji_serial_bridge.Base.{◌≡◌, refl, sym, ap, arith, List, [], ◌∷◌, ◌++◌, ℕ, true, false}
use ros2_dji_serial_bridge.Base.Int.{pos, ◌-ℤ◌}
use ros2_dji_serial_bridge.Protocol.Wire.{wire_frame}
use ros2_dji_serial_bridge.Node.State.{Event, Ping}
use ros2_dji_serial_bridge.Node.Transmit.Laws.{frames_written}
use ros2_dji_serial_bridge.Node.Callbacks.{ping_callback}
use ros2_dji_serial_bridge.Node.Handlers.Laws.{publications}
use ros2_dji_serial_bridge.Node.Receive.{process_rx_buffer, Rx}
use ros2_dji_serial_bridge.Node.Receive.Stream.{rx}
use ros2_dji_serial_bridge.Node.ReadLoop.Delivery.{Arrival, read_all, due_messages}
use ros2_dji_serial_bridge.Node.ReadLoop.Account.{Account}
use ros2_dji_serial_bridge.Node.System.Echo.{ping_callback-echo}
use ros2_dji_serial_bridge.Node.System.Reception.{received, received_times}
use ros2_dji_serial_bridge.Node.System.Reception.Run.{Reach-delivers, Reach-Account}
use ros2_dji_serial_bridge.Node.System.{System, Step, Reach, launched, on_system}
use ros2_dji_serial_bridge.Node.Diagnostics.{print_diagnostics}
use ros2_dji_serial_bridge.Node.ReadLoop.{
  ReadResult, PollResult, Turn, take_chunk, after_read, read_input, read_turn,
}
use ros2_dji_serial_bridge.Tests.Data.{node, ping_frame, takes_all}
use ros2_dji_serial_bridge.Tests.Receiver.{ping_frame_test, item, item-IsItem}

abbrev ping : Ping
ping = record { stamp = pos 0; number = 7 }

abbrev one_read : List Arrival
one_read = record { chunk = ping_frame; now = pos 1000000 } ∷ []

ping_callback-echo_example :
    (frames_written (ping_callback takes_all ping node).events ≡ wire_frame 5 0 (7 ∷ []) ∷ [])
    × (publications (read_all 10 one_read (rx [] [] node)).node.events
        ≡ Event.published_ping (record { stamp = pos 131950; number = 7 }) ∷ [])
    × ((read_all 10 one_read (rx [] [] node)).buf ≡ [])
unfolding ◌-ℤ◌
ping_callback-echo_example =
    ping_callback-echo takes_all ping node node 10 3 one_read (omega arith) (omega arith)
      (omega arith) (sym ping_frame_test)

-- A ping goes out, its frame comes back behind a byte of garbage, and a summary is printed.
abbrev to_float : ℕ → ℕ
to_float x = x

abbrev after_ping : System
after_ping = on_system (ping_callback takes_all ping) (launched node)

abbrev echo_arrives : PollResult
echo_arrives = PollResult.events true false (ReadResult.bytes (9 ∷ ping_frame)) (pos 1000000)

abbrev read_echo : Rx
read_echo = process_rx_buffer (take_chunk (9 ∷ ping_frame) (pos 1000000) after_ping.rx)

abbrev echoed : System
echoed = on_system print_diagnostics (record { rx = read_echo; reading = true })

echo_turn : read_turn 10 echo_arrives after_ping.rx ≡ Turn.next read_echo
echo_turn = unfold read_turn read_input after_read in refl

abbrev echo_run : Reach 10 to_float (launched node) echoed
echo_run =
    Reach.later
      (Reach.later (Reach.later Reach.here (Step.ping takes_all ping (omega arith)))
        (Step.read echo_arrives read_echo refl (omega arith, omega arith) echo_turn))
      Step.timer

Reach-delivers_example :
    (echoed.rx.buf ≡ [])
    × (publications echoed.rx.node.events
        ≡ [] ++ due_messages 86805 (item ∷ []) (received_times echo_run))
Reach-delivers_example =
    Reach-delivers 10 to_float node echoed echo_run (item ∷ []) [] refl item-IsItem (omega arith)
      (unfold received in ap (λ frame. 9 ∷ (frame ++ [])) (sym ping_frame_test))

Reach-Account_example : Account (rx (received echo_run) (received_times echo_run) node) echoed.rx
Reach-Account_example = Reach-Account 10 to_float node echoed echo_run refl refl
