-- ===== src/Node/ReadLoop/Account.antt =====
-- Of any bytes: what the receive loop made of each.
pub mod Frames
use ros2_dji_serial_bridge.Base.{
  ℕ, suc, ◌+◌, ◌-◌, ◌*◌, ◌≤◌, ◌≡◌, refl, sym, ap, ap₂, ◌∙◌, arith, List, [], ◌∷◌, ◌++◌, drop-nil,
  length, drop, get_or, All,
}
use ros2_dji_serial_bridge.Base.Int.{ℤ, pos, ◌-ℤ◌}
use ros2_dji_serial_bridge.Protocol.Wire.{IsSendable}
use ros2_dji_serial_bridge.Node.Handlers.Laws.{publications, message_of, as_list}
use ros2_dji_serial_bridge.Node.Receive.{Rx}
use ros2_dji_serial_bridge.Node.Receive.Stream.{Item, stream}
use ros2_dji_serial_bridge.Node.ReadLoop.Delivery.{due_messages}

-- The frames of items are wire frames; what stands before a frame may be anything.
abbrev pub AreFrames : List Item → Type 0
AreFrames items = All (λ (item : Item). IsSendable item.id item.seq item.payload) items

-- How the bytes of `s` became the state `r`.
pub record Account (s r : Rx) : Type 0 where
  pub items : List Item
  pub skipped : List ℕ
  pub frames : AreFrames items
  pub bytes : s.buf ≡ stream items (skipped ++ r.buf)
  pub published :
      publications r.node.events
      ≡ publications s.node.events ++ due_messages s.node.byte_wire_ns items s.read_ns

-- A byte that was dropped stands before the next frame, or behind the last.
skip_byte : (b : ℕ) → List Item × List ℕ → List Item × List ℕ
skip_byte b ([], skipped) = ([], b ∷ skipped)
skip_byte b (item ∷ items, skipped) = (record item { garbage = b ∷ item.garbage } ∷ items, skipped)

skip_byte-AreFrames :
    (b : ℕ) (items : List Item) (skipped : List ℕ)
    → AreFrames items
    → AreFrames (skip_byte b (items, skipped)).0
unfolding skip_byte
skip_byte-AreFrames b [] skipped h = tt
skip_byte-AreFrames b (item ∷ items) skipped h = h

stream-skip_byte :
    (b : ℕ) (items : List Item) (skipped rest : List ℕ)
    → stream (skip_byte b (items, skipped)).0 ((skip_byte b (items, skipped)).1 ++ rest)
      ≡ b ∷ stream items (skipped ++ rest)
unfolding skip_byte
stream-skip_byte b [] skipped rest = refl
stream-skip_byte b (item ∷ items) skipped rest = refl

drop_more : (n : ℕ) (times : List ℤ) → drop n (drop 1 times) ≡ drop (suc n) times
drop_more n [] = drop-nil n
drop_more n (x ∷ times) = refl

due_messages-skip_byte :
    (b wire : ℕ) (items : List Item) (skipped : List ℕ) (times : List ℤ)
    → due_messages wire (skip_byte b (items, skipped)).0 times
      ≡ due_messages wire items (drop 1 times)
unfolding skip_byte
due_messages-skip_byte b wire [] skipped times = refl
due_messages-skip_byte b wire (item ∷ items) skipped times =
    ap
      (λ at_frame.
        as_list (
          message_of item.id item.payload (
            get_or at_frame (length item.payload + 8) (pos 0)
            -ℤ pos ((length item.payload + 9) * wire)))
        ++ due_messages wire items (drop (length item.payload + 9) at_frame))
      (sym (drop_more (length item.garbage) times))

pub skip-Account :
    (s t r : Rx)
    → 1 ≤ length s.buf
    → t.buf ≡ drop 1 s.buf
    → t.read_ns ≡ drop 1 s.read_ns
    → t.node.byte_wire_ns ≡ s.node.byte_wire_ns
    → publications t.node.events ≡ publications s.node.events
    → Account t r
    → Account s r
skip-Account s t r long buf times wire same a = record {
  items = (skip_byte b (a.items, a.skipped)).0;
  skipped = (skip_byte b (a.items, a.skipped)).1;
  frames = skip_byte-AreFrames b a.items a.skipped a.frames;
  bytes =
      first s.buf long
      ∙ ap (◌∷◌ b) (sym buf ∙ a.bytes)
      ∙ sym (stream-skip_byte b a.items a.skipped r.buf);
  published =
      a.published
      ∙ ap₂ ◌++◌ same (
          ap₂ (λ w ts. due_messages w a.items ts) wire times
          ∙ sym (due_messages-skip_byte b s.node.byte_wire_ns a.items a.skipped s.read_ns));
}
  where
    b : ℕ
    b = get_or s.buf 0 0

    first : (buf : List ℕ) → 1 ≤ length buf → buf ≡ get_or buf 0 0 ∷ drop 1 buf
    first [] h = absurd (omega arith)
    first (x ∷ xs) h = refl
