-- ===== src/Node/ReadLoop.antt =====
-- `read_loop`: one turn for each `poll`, over the polls that the thread makes before `running_` is
-- cleared. What `poll`, `read` and the clock give is the input.
pub mod Laws
pub mod Silence
pub mod Delivery
pub mod Account
use ros2_dji_serial_bridge.Base.{
  ℕ, ◌+◌, ◌*◌, Bool, List, [], ◌∷◌, length, replicate, ltb, ◌==◌, if◌then◌else◌,
}
use ros2_dji_serial_bridge.Base.Int.{ℤ}
use ros2_dji_serial_bridge.Base.Bytes.{u64}
use ros2_dji_serial_bridge.Node.State.{Node, Event, Log, emit}
use ros2_dji_serial_bridge.Node.Receive.{Rx, process_rx_buffer}
use ros2_dji_serial_bridge.Node.Receive.Chunks.{arrive}

-- What `read` gives: the bytes, none of them at the end of file, or -1 with `errno`.
pub data ReadResult : Type 0 where
  bytes : List ℕ → ReadResult
  again failed : ReadResult

-- What `poll` gives: -1 with `errno`, 0, or the events; `input` is `POLLIN` and `trouble` one of
-- `POLLERR`, `POLLHUP` and `POLLNVAL`. `read` is called only if `input` is set.
pub data PollResult : Type 0 where
  interrupted error timeout : PollResult
  events : (input trouble : Bool) → ReadResult → (now : ℤ) → PollResult

-- The turn goes on with the next poll, or breaks out of the loop.
pub data Turn : Type 0 where
  next : Rx → Turn
  break : Rx → Turn

abbrev pub silence_warn_polls : ℕ
silence_warn_polls = 100

abbrev pub on_node : (Node → Node) → Rx → Rx
on_node f s = record s { node = f s.node }

-- `poll` returned 0.
unfoldable pub silent_poll : (poll_ms : ℕ) → Node → Node
silent_poll poll_ms n =
    let sil = u64 (n.silent_polls + 1) in
    let counted = record n { silent_polls = sil } in
    if sil == silence_warn_polls
    then emit (Event.logged (Log.no_data (poll_ms * silence_warn_polls) poll_ms) ∷ []) counted
    else counted

-- `read` returned bytes.
unfoldable pub take_chunk : List ℕ → (now : ℤ) → Rx → Rx
take_chunk chunk now s =
    let prev = s.node.bytes_rx in
    let counted = record s.node { bytes_rx = u64 (prev + length chunk); silent_polls = 0 } in
    let noted =
      if prev == 0
      then emit (Event.logged (Log.first_bytes (length chunk)) ∷ []) counted
      else counted in
    arrive chunk (replicate (length chunk) now) (record s { node = noted })

abbrev pub note : Log → Rx → Rx
note line s = on_node (emit (Event.logged line ∷ [])) s

-- The rest of the turn after the read.
unfoldable pub after_read : (trouble : Bool) → Rx → Turn
after_read trouble s =
    if trouble then Turn.break (note Log.device_disconnected s) else Turn.next (process_rx_buffer s)

unfoldable pub read_input : (trouble : Bool) → ReadResult → (now : ℤ) → Rx → Turn
unfolding after_read take_chunk
read_input trouble (ReadResult.bytes chunk) now s =
    after_read trouble (if ltb 0 (length chunk) then take_chunk chunk now s else s)
read_input trouble ReadResult.again now s = after_read trouble s
read_input trouble ReadResult.failed now s = Turn.break (note Log.read_error s)

unfoldable pub read_turn : (poll_ms : ℕ) → PollResult → Rx → Turn
read_turn poll_ms PollResult.interrupted s = Turn.next s
read_turn poll_ms PollResult.error s = Turn.break (note Log.poll_error s)
read_turn poll_ms PollResult.timeout s = Turn.next (on_node (silent_poll poll_ms) s)
read_turn poll_ms (PollResult.events input trouble result now) s =
    if input then read_input trouble result now s else after_read trouble s

-- The last line of the thread.
abbrev pub thread_exit : Rx → Rx
thread_exit s = note (Log.thread_exiting s.node.bytes_rx s.node.frames_rx) s

unfoldable pub read_loop : (poll_ms : ℕ) → List PollResult → Rx → Rx
read_loop poll_ms [] s = thread_exit s
read_loop poll_ms (poll ∷ polls) s = elim (read_turn poll_ms poll s) [
  | Turn.next t ↦ read_loop poll_ms polls t
  | Turn.break t ↦ thread_exit t
]
