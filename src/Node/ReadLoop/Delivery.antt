-- ===== src/Node/ReadLoop/Delivery.antt =====
-- From `read` to the published messages: bytes that arrive in any cuts.
pub mod Frames
use ros2_dji_serial_bridge.Base.{
  ℕ, ◌+◌, ◌-◌, ◌*◌, ◌≡◌, refl, sym, ap, ap₂, subst, ◌∙◌, arith, lt→ltb, Bool, true, false, List, [],
  ◌∷◌, ◌++◌, append-nil, append_assoc, length, drop, get_or, replicate, length-append,
  length-replicate, ◌==◌, if◌then◌else◌,
}
use ros2_dji_serial_bridge.Base.Int.{ℤ, pos, ◌-ℤ◌}
use ros2_dji_serial_bridge.Base.Bytes.{u64}
use ros2_dji_serial_bridge.Node.State.{Node, Event, Log, emit}
use ros2_dji_serial_bridge.Node.Handlers.Laws.{
  publications, publications-append, message_of, as_list,
}
use ros2_dji_serial_bridge.Node.Receive.{Rx, process_rx_buffer}
use ros2_dji_serial_bridge.Node.Receive.Loop.{IsParallel}
use ros2_dji_serial_bridge.Node.Receive.Chunks.{arrive, process_chunks}
use ros2_dji_serial_bridge.Node.Receive.Stream.{Item}
use ros2_dji_serial_bridge.Node.Receive.Core.{AreAlike, AreAlike-trans, process-AreAlike}
use ros2_dji_serial_bridge.Node.ReadLoop.{
  ReadResult, PollResult, Turn, take_chunk, after_read, read_input, read_turn,
}

-- What one `read` gives, and when.
pub record Arrival : Type 0 where
  pub chunk : List ℕ
  pub now : ℤ

abbrev pub all_bytes : List Arrival → List ℕ
all_bytes [] = []
all_bytes (a ∷ arrivals) = a.chunk ++ all_bytes arrivals

abbrev pub all_times : List Arrival → List ℤ
all_times [] = []
all_times (a ∷ arrivals) = replicate (length a.chunk) a.now ++ all_times arrivals

abbrev pub turn_rx : Turn → Rx
turn_rx (Turn.next s) = s
turn_rx (Turn.break s) = s

-- The turns of the read thread, each with its bytes and no trouble of the device.
abbrev pub read_all : (poll_ms : ℕ) → List Arrival → Rx → Rx
read_all poll_ms [] s = s
read_all poll_ms (a ∷ arrivals) s =
    read_all poll_ms arrivals (
      turn_rx (read_turn poll_ms (PollResult.events true false (ReadResult.bytes a.chunk) a.now) s))

-- The messages that frames stand for, with the read time of the last byte less the wire time of the
-- frame.
abbrev pub due_messages : (byte_ns : ℕ) → List Item → List ℤ → List Event
due_messages byte_ns [] times = []
due_messages byte_ns (item ∷ items) times =
    let at_frame = drop (length item.garbage) times in
    let start =
      get_or at_frame (length item.payload + 8) (pos 0)
      -ℤ pos ((length item.payload + 9) * byte_ns) in
    as_list (message_of item.id item.payload start)
    ++ due_messages byte_ns items (drop (length item.payload + 9) at_frame)

take_chunk-alike :
    (chunk : List ℕ) (now : ℤ) (s : Rx)
    → AreAlike (take_chunk chunk now s) (arrive chunk (replicate (length chunk) now) s)
unfolding take_chunk arrive emit
take_chunk-alike chunk now s = noted (s.node.bytes_rx == 0)
  where
    counted : Node
    counted = record s.node { bytes_rx = u64 (s.node.bytes_rx + length chunk); silent_polls = 0 }

    noted :
        (b : Bool)
        → AreAlike
            (arrive chunk (replicate (length chunk) now) (record s {
              node =
                  if b
                  then emit (Event.logged (Log.first_bytes (length chunk)) ∷ []) counted
                  else counted;
            }))
            (arrive chunk (replicate (length chunk) now) s)
    noted true = record {
      buf = refl;
      read_ns = refl;
      enforce_crc = refl;
      byte_wire_ns = refl;
      published =
          publications-append s.node.events (Event.logged (Log.first_bytes (length chunk)) ∷ [])
          ∙ append-nil (publications s.node.events);
    }
    noted false = record {
      buf = refl;
      read_ns = refl;
      enforce_crc = refl;
      byte_wire_ns = refl;
      published = refl;
    }

arrive-nil : (s : Rx) → AreAlike s (arrive [] [] s)
unfolding arrive
arrive-nil s = record {
  buf = sym (append-nil s.buf);
  read_ns = sym (append-nil s.read_ns);
  enforce_crc = refl;
  byte_wire_ns = refl;
  published = refl;
}

-- The turn of one arrival publishes as if its bytes were appended and processed.
pub read_turn-alike :
    (poll_ms : ℕ) (chunk : List ℕ) (now : ℤ) (s : Rx)
    → AreAlike
        (turn_rx (read_turn poll_ms (PollResult.events true false (ReadResult.bytes chunk) now) s))
        (process_rx_buffer (arrive chunk (replicate (length chunk) now) s))
unfolding read_turn read_input after_read
read_turn-alike poll_ms [] now s = process-AreAlike s (arrive [] [] s) (arrive-nil s)
read_turn-alike poll_ms (b ∷ chunk) now s = rw (lt→ltb 0 (length (b ∷ chunk)) (omega arith)) (
    process-AreAlike (take_chunk (b ∷ chunk) now s)
      (arrive (b ∷ chunk) (replicate (length (b ∷ chunk)) now) s)
      (take_chunk-alike (b ∷ chunk) now s))

pub arrive-alike :
    (bytes : List ℕ) (times : List ℤ) (s t : Rx)
    → AreAlike s t
    → AreAlike (arrive bytes times s) (arrive bytes times t)
unfolding arrive
arrive-alike bytes times s t h = record {
  buf = ap (λ b. b ++ bytes) h.buf;
  read_ns = ap (λ b. b ++ times) h.read_ns;
  enforce_crc = h.enforce_crc;
  byte_wire_ns = h.byte_wire_ns;
  published = h.published;
}

arrive-IsParallel :
    (a : Arrival) (s : Rx)
    → IsParallel s
    → IsParallel (arrive a.chunk (replicate (length a.chunk) a.now) s)
unfolding arrive
arrive-IsParallel a s h = omega (
  arith,
  length-append s.buf a.chunk,
  length-append s.read_ns (replicate (length a.chunk) a.now),
  length-replicate (length a.chunk) a.now,
)

arrive-arrive :
    (bytes more : List ℕ) (times later : List ℤ) (s : Rx)
    → arrive more later (arrive bytes times s) ≡ arrive (bytes ++ more) (times ++ later) s
unfolding arrive
arrive-arrive bytes more times later s =
    ap₂ (λ b t. record s { buf = b; read_ns = t }) (append_assoc s.buf bytes more)
      (append_assoc s.read_ns times later)

-- All arrivals publish as if they had come at once.
pub read_all-alike :
    (poll_ms : ℕ) (arrivals : List Arrival) (r s : Rx)
    → IsParallel s
    → AreAlike r (process_rx_buffer s)
    → AreAlike
        (read_all poll_ms arrivals r)
        (process_rx_buffer (arrive (all_bytes arrivals) (all_times arrivals) s))
read_all-alike poll_ms [] r s par h =
    AreAlike-trans h (process-AreAlike s (arrive [] [] s) (arrive-nil s))
read_all-alike poll_ms (a ∷ arrivals) r s par h =
    let times = replicate (length a.chunk) a.now in
    let grown = arrive a.chunk times s in
    let one_more = AreAlike-trans (read_turn-alike poll_ms a.chunk a.now r) (
      subst (AreAlike (process_rx_buffer (arrive a.chunk times r)))
        (process_chunks a.chunk times s par)
        (process-AreAlike (arrive a.chunk times r) (arrive a.chunk times (process_rx_buffer s))
          (arrive-alike a.chunk times r (process_rx_buffer s) h))) in
    subst
      (λ t.
        AreAlike
          (read_all poll_ms arrivals (
            turn_rx (
              read_turn poll_ms (PollResult.events true false (ReadResult.bytes a.chunk) a.now) r)))
          (process_rx_buffer t))
      (arrive-arrive a.chunk (all_bytes arrivals) times (all_times arrivals) s)
      (read_all-alike poll_ms arrivals _ grown (arrive-IsParallel a s par) one_more)
