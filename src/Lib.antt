-- ===== src/Lib.antt =====
-- dji_serial_bridge: a ROS 2 node between a Jetson and the MCB (the robot's main control board) over
-- a UART, in frames of the DJI format: 7 bytes of header with a CRC-8, the payload, a CRC-16.
--
-- The parts and how they interact. The read thread (`read_loop`) polls the port, appends what it read
-- to a buffer with one read time per byte, and runs `process_rx_buffer`, which hunts for frames,
-- checks them and hands each payload to `dispatch_incoming` and a handler, which publishes a ROS
-- message. The executor thread runs the subscriber callbacks, which send one frame each by
-- `send_frame`, and the timer's `print_diagnostics`. All of them count in atomics.
--
-- Which file models which part (paths from the repository's root):
--   Crc               src/crc_dji.cpp, include/dji_serial_bridge/crc_dji.hpp: `calculateCRC8` and
--                     `calculateCRC16` as `calculate_crc8` and `calculate_crc16`, with their tables
--                     in Crc/Table8 and Crc/Table16. Crc/Reference is a specification, not code.
--   Protocol          include/dji_serial_bridge/dji_protocol.hpp: the header, the message ids and the
--                     payload structs with the bytes of each. Protocol/Wire is a specification: the
--                     frame of UART_PROTOCOL.md.
--   Node/State        the member variables of `DjiSerialBridge` (src/dji_serial_bridge_node.cpp), and
--                     the messages of msg/ that it uses.
--   Node/Receive      `process_rx_buffer`, `frame_stamp`.
--   Node/Handlers     `dispatch_incoming`, `handle_pose`, `handle_ref_sys`, `handle_ping`,
--                     `odom_status_name`. Node/Handlers/Tables is a specification: the messages of
--                     the wire tables of UART_PROTOCOL.md, by offsets and bits.
--   Node/Transmit     `send_frame`.
--   Node/Callbacks    `nav_goal_callback`, `cv_target_callback`, `relocalize_callback`,
--                     `ping_callback`.
--   Node/ReadLoop     `read_loop`. Node/ReadLoop/Delivery and Node/ReadLoop/Account are about bytes
--                     from `read` to the published messages.
--   Node/Diagnostics  `print_diagnostics`.
--   Node/Start        the constructor, `configure_serial`, `baud_to_speed`.
--   Node/System       the threads together, as a step relation, and the destructor as `destroy`.
--   Node/Recall       the pose that `handle_pose` stores and `relocalize_callback` recalls, one access of
--                     an atomic a step.
--   Node/Tally and Node/Consistent say what the counters mean, Node/Actions what the operations are
--   made of, Node/System/Watch what an observer of the events knows, Node/System/Reception what a run
--   has received, Node/System/Balance and Node/System/Intake what its bytes pay for, Node/System/Silent
--   its silent polls, Node/System/Exits the lines by which the read thread leaves; they are no code.
--   Diagnostic        include/dji_serial_bridge/diagnostic_frames.hpp: the tools' `crc8`, `crc16`,
--                     `read16`, `test_frame` and `FrameParser::append`. What it prints is a list of
--                     lines. Diagnostic/Events is a specification: what a whole input parses to.
--   Diagnostic/Serial  include/dji_serial_bridge/diagnostic_serial.hpp: `baud_speed`, the constructor
--                     and the destructor of `SerialPort` (`serial_port`, `close_port`), and `hex`.
--   Diagnostic/Options  the argument loop of `main` of src/serial_debug.cpp, as `parse_arguments`.
--   Diagnostic/Debug  the rest of that `main`, as `debug_main`: one turn of its loop is `debug_turn`,
--                     the loop that writes a frame `send_all`.
--   Base              shared names and lemmas. Tests holds small runs and instances.
--
-- State and operations. A method that changes members is a function from `Node` (or `Rx`, the read
-- thread's buffer with the node) to the same type. What it does to the outside (log lines at INFO and
-- above, publications, calls of `::write`) is appended to `events`, oldest first. Names are the
-- source's in snake case.
--
-- Choices. A number of w bits is a native natural number below 2 ^ w, and its wrap-around is written
-- out. Floats and doubles are bit patterns; the narrowing of a double is the parameter `to_float`.
-- A pointer with a length is a list, `none` for a null pointer. What `::write` returns is a function
-- of the frame, `none` for -1, and may be another in each step. What `poll`, `read`, the clock,
-- `stat`, `access`, `open`, `fcntl` and the `termios` calls give is input. Times are integers of nanoseconds;
-- Node/System/Stamps is about the 64-bit range of a stamp. Whether rclcpp creates the publishers, the
-- subscriptions and the timer with its period, and whether the thread starts, is input as well: an
-- exception there leaves the constructor with the port open. A successful `tcsetattr` is taken to have
-- applied all attributes, though POSIX asks for some only, and the result of `fcntl` with F_SETFL,
-- which the code does not look at, is taken to be success: Node/Start gives the attributes and flags
-- that were asked for. The runs take the poll timeout as a natural number, after the cast to `int`; a
-- negative one makes `poll` wait without an end, so that it never returns 0.
--
-- Bounds and fuel. `process_rx_buffer` runs its loop with the length of the buffer as fuel: each turn
-- takes a byte at least. `FrameParser::append` has one more than that, for the turn that leaves.
-- `read_loop` takes one turn for each `poll` in its list, which stands for the polls until `running_` is
-- cleared or the loop breaks.
--
-- Concurrency. In Node/System a callback, a timer call and a turn of the read loop are atomic steps in
-- any order: the two threads share only atomics, each counter is written by one of them, and
-- `write_mutex_` guards the write. Node/Recall is finer where the order of single accesses shows: each
-- store of `last_pose_x_`, `last_pose_y_` and `have_pose_` in `handle_pose` and each load of them in
-- `relocalize_callback` is a step. A relaxed atomic there is the list of the values stored in it, by its
-- one writer, and a load gives any that is not older than the one loaded before, or the newest if
-- `newest` is set; the two loads of the coordinates come in either order, as arguments of one call.
-- What Node/System says of the remembered pose is of states between two steps, and its lines about a
-- relocalisation, each in one step, are one case of those of Node/Recall.
-- The diagnostics' first loads of the counters are made at one moment; the second load of `frames_rx_`
-- is an argument of Node/Diagnostics' `summary`, and in the steps of Node/System it gives the same. The read
-- thread's first lines may come before the constructor's last line; here they come behind it.
--
-- The tools. `std::stoi`, `std::stod`, `cfmakeraw`, the rates that the system's headers define and the
-- period of a rate are parameters; what `open`, `tcgetattr`, `tcsetattr`, `poll`, `read`, `write` and
-- the clock give is input. `send_all` runs over a list of results of `write`, and is `waiting` if they
-- end before the frame does; `debug_loop` runs over a list of rounds, which ends where a signal clears
-- `running`.
--
-- Not modelled: debug-level log lines, the text of a log line (the names of the odometry status are),
-- the throttle of the send errors (each is recorded), ROS publishers, subscriptions, timers and their
-- queues, `tcflush` (what it discards no read has given), the texts of the tools' exceptions and their
-- standard error, `fflush`, and src/test_bridge.cpp, which tries the bridge by hand.
pub mod Base
pub mod Crc
pub mod Protocol
pub mod Node
pub mod Diagnostic
mod Tests
