-- ===== src/Node/System/Reception/Run.antt =====
-- What a whole run publishes, whatever the callbacks and the timer do in between.
use ros2_dji_serial_bridge.Base.{
  ℕ, ◌<◌, ◌≡◌, refl, sym, ap, subst, ◌∙◌, arith, true, List, [], ◌++◌, length, length-append,
  length-replicate, All, All-append,
}
use ros2_dji_serial_bridge.Base.Bytes.{AreBytes, IsByte}
use ros2_dji_serial_bridge.Node.State.{Node}
use ros2_dji_serial_bridge.Node.Callbacks.{
  nav_goal_callback, cv_target_callback, relocalize_callback, ping_callback,
}
use ros2_dji_serial_bridge.Node.Diagnostics.{print_diagnostics}
use ros2_dji_serial_bridge.Node.Handlers.Laws.{publications}
use ros2_dji_serial_bridge.Node.Receive.{Rx, process_rx_buffer}
use ros2_dji_serial_bridge.Node.Receive.Stream.{
  rx, Item, IsItem, stream, dispatch_all, process-stream,
}
use ros2_dji_serial_bridge.Node.Receive.Core.{AreAlike, AreAlike-refl}
use ros2_dji_serial_bridge.Node.ReadLoop.{ReadResult, PollResult, Turn}
use ros2_dji_serial_bridge.Node.System.{System, Step, Reach, launched}
use ros2_dji_serial_bridge.Node.ReadLoop.Laws.{IsPoll}
use ros2_dji_serial_bridge.Node.ReadLoop.Delivery.{due_messages}
use ros2_dji_serial_bridge.Node.ReadLoop.Delivery.Frames.{process-short, dispatch_all-publications}
use ros2_dji_serial_bridge.Node.ReadLoop.Account.{Account}
use ros2_dji_serial_bridge.Node.ReadLoop.Account.Frames.{process-Account}
use ros2_dji_serial_bridge.Node.System.Reception.{
  node_alike, poll_bytes, poll_times, received, received_times, TurnAlike, read_turn-TurnAlike,
  nav_goal_callback-SameOutside, cv_target_callback-SameOutside, relocalize_callback-SameOutside,
  ping_callback-SameOutside, print_diagnostics-SameOutside,
}

poll_parallel : (poll : PollResult) → length (poll_times poll) ≡ length (poll_bytes poll)
poll_parallel (PollResult.events true trouble (ReadResult.bytes chunk) now) =
    length-replicate (length chunk) now
poll_parallel _ = refl

poll_bytes-AreBytes : (poll : PollResult) → IsPoll poll → AreBytes (poll_bytes poll)
poll_bytes-AreBytes (PollResult.events true trouble (ReadResult.bytes chunk) now) h = h.0
poll_bytes-AreBytes _ h = tt

module _ {poll_ms : ℕ} {to_float : ℕ → ℕ} {s : System} where
  received-parallel :
      {t : System} (r : Reach poll_ms to_float s t)
      → length (received_times r) ≡ length (received r)
  unfolding received received_times
  received-parallel Reach.here = refl
  received-parallel (Reach.later r (Step.read poll t on p e)) = omega (
    arith,
    length-append (received r) (poll_bytes poll),
    length-append (received_times r) (poll_times poll),
    poll_parallel poll,
    received-parallel r,
  )
  received-parallel (Reach.later r _) = received-parallel r

  received-AreBytes : {t : System} (r : Reach poll_ms to_float s t) → AreBytes (received r)
  unfolding received
  received-AreBytes Reach.here = tt
  received-AreBytes (Reach.later r (Step.read poll t on p e)) =
      All-append IsByte (received r) (poll_bytes poll) (received-AreBytes r)
        (poll_bytes-AreBytes poll p)
  received-AreBytes (Reach.later r _) = received-AreBytes r

module _ {poll_ms : ℕ} {to_float : ℕ → ℕ} {n : Node} where
  -- All that was received, processed at once.
  abbrev processed : {s : System} → Reach poll_ms to_float (launched n) s → Rx
  processed r = process_rx_buffer (rx (received r) (received_times r) n)

  Reach-alike :
      {s : System} (r : Reach poll_ms to_float (launched n) s)
      → s.reading ≡ true
      → AreAlike s.rx (processed r)
  unfolding received received_times
  Reach-alike Reach.here on = rw (process-short [] [] n (omega arith)) (AreAlike-refl (rx [] [] n))
  Reach-alike (Reach.later {t} r (Step.read poll u on p e)) still =
      subst
        (λ (turn : Turn). TurnAlike turn (
          process_rx_buffer
            (rx (received r ++ poll_bytes poll) (received_times r ++ poll_times poll) n)))
        e
        (read_turn-TurnAlike poll_ms poll t.rx (received r) (received_times r) n
          (received-parallel r) (Reach-alike r on))
  Reach-alike (Reach.later r (Step.break poll u on p e)) still = cc
  Reach-alike (Reach.later {t} r (Step.nav_goal write msg)) on =
      node_alike (nav_goal_callback write to_float msg) t.rx _
        (nav_goal_callback-SameOutside write to_float msg t.rx.node) (Reach-alike r on)
  Reach-alike (Reach.later {t} r (Step.cv_target write msg)) on =
      node_alike (cv_target_callback write msg) t.rx _
        (cv_target_callback-SameOutside write msg t.rx.node) (Reach-alike r on)
  Reach-alike (Reach.later {t} r (Step.relocalize write msg)) on =
      node_alike (relocalize_callback write to_float msg) t.rx _
        (relocalize_callback-SameOutside write to_float msg t.rx.node) (Reach-alike r on)
  Reach-alike (Reach.later {t} r (Step.ping write msg byte)) on =
      node_alike (ping_callback write msg) t.rx _ (ping_callback-SameOutside write msg t.rx.node)
        (Reach-alike r on)
  Reach-alike (Reach.later {t} r Step.timer) on =
      node_alike print_diagnostics t.rx _ (print_diagnostics-SameOutside t.rx.node)
        (Reach-alike r on)

-- In any run from the start of the threads on, in which the read thread still reads: if all bytes
-- that were read are frames of the wire format, with bytes that are no frame head before each and fewer than 9 bytes
-- behind the last, however they were cut into reads and whatever the callbacks, the timer and silent
-- polls did in between, then the messages that were published are those of all these frames, once
-- and in order, each with the time at which its last byte was read, less the frame's wire time; and
-- the buffer holds just the bytes behind the last frame.
pub Reach-delivers :
    (poll_ms : ℕ) (to_float : ℕ → ℕ) (n : Node) (s : System)
    → (r : Reach poll_ms to_float (launched n) s) (items : List Item) (rest : List ℕ)
    → s.reading ≡ true
    → All IsItem items
    → length rest < 9
    → received r ≡ stream items rest
    → (s.rx.buf ≡ rest)
      × (publications s.rx.node.events
          ≡ publications n.events ++ due_messages n.byte_wire_ns items (received_times r))
Reach-delivers poll_ms to_float n s r items rest on h short e =
    let times = received_times r in
    let alike = Reach-alike r on in
    let ended : processed r
        ≡ rx rest (dispatch_all items times n).0 (dispatch_all items times n).1 =
      ap (λ bytes. process_rx_buffer (rx bytes times n)) e
      ∙ process-stream items rest times n h
      ∙ process-short rest _ _ short in
    (
      alike.buf ∙ ap (λ (t : Rx). t.buf) ended,
      alike.published
          ∙ ap (λ (t : Rx). publications t.node.events) ended
          ∙ dispatch_all-publications items times n,
    )

-- In any run from the start of the threads on, in which the read thread still reads, with the
-- checksums enforced, and whatever bytes were read: all these bytes, in order, are bytes that were
-- skipped one by one, frames of the wire format, and the bytes that the buffer holds; and the
-- messages that were published are those of just these frames, in order, each with the read time of
-- its frame's last byte less the frame's wire time.
pub Reach-Account :
    (poll_ms : ℕ) (to_float : ℕ → ℕ) (n : Node) (s : System)
    → (r : Reach poll_ms to_float (launched n) s) → s.reading ≡ true
    → n.enforce_crc ≡ true
    → Account (rx (received r) (received_times r) n) s.rx
Reach-Account poll_ms to_float n s r on checked =
    let alike = Reach-alike r on in
    let a = process-Account (rx (received r) (received_times r) n) checked (received-AreBytes r) in
    record {
      items = a.items;
      skipped = a.skipped;
      frames = a.frames;
      bytes = a.bytes ∙ ap (λ kept. stream a.items (a.skipped ++ kept)) (sym alike.buf);
      published = alike.published ∙ a.published;
    }
