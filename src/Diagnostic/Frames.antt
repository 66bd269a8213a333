-- ===== src/Diagnostic/Frames.antt =====
-- The frames that the frame parser reports against those that stand in its input.
use ros2_dji_serial_bridge.Base.{
  ℕ, zero, suc, ◌+◌, List, [], ◌∷◌, ◌++◌, some, length, take, drop, ◌≡◌, refl, sym, ap₂, ◌∙◌, subst,
  ◌<◌, ◌≤◌, arith, length-take, get_or-append_left, take-append_left, drop-append_left, length-drop,
  take-append-drop, map,
}
use ros2_dji_serial_bridge.Base.Bytes.{byte_at}
use ros2_dji_serial_bridge.Diagnostic.{Line, crc8, crc16, read16, before_head}
use ros2_dji_serial_bridge.Diagnostic.Events.{cut, event, Parse}
use ros2_dji_serial_bridge.Diagnostic.Parses.{read16-append, event_takes}

-- A frame by the tool's own rules: the head byte, the length in the header, 4096 bytes at most, its
-- CRC-8, and for the trailer its CRC-16, which has a table of 16 entries and is not that of the wire.
pub record IsToolFrame (bytes : List ℕ) : Type 0 where
  pub size : length bytes ≡ 9 + read16 bytes 1
  pub bound : length bytes ≤ 4096
  pub head : byte_at bytes 0 ≡ 0xa5
  pub header : crc8 (take 4 bytes) ≡ byte_at bytes 4
  pub body : read16 bytes (7 + read16 bytes 1) ≡ crc16 (take (7 + read16 bytes 1) bytes)

-- The line on a frame.
abbrev pub line_of : List ℕ → Line
line_of bytes =
    Line.frame_ok (byte_at bytes 3) (read16 bytes 5) (read16 bytes 1)
      (take (read16 bytes 1) (drop 7 bytes))

pub IsToolFrame-event : (f : List ℕ) → IsToolFrame f → event f ≡ some (line_of f, length f)
unfolding event
IsToolFrame-event f h = ground (arith, h.size, h.bound, h.header, h.body)

-- What the event of a frame has checked.
event_checked :
    (bytes : List ℕ) (seq msg len : ℕ) (payload : List ℕ) (n : ℕ)
    → event bytes ≡ some (Line.frame_ok seq msg len payload, n)
    → (n ≡ 9 + read16 bytes 1)
      × (n ≤ 4096)
      × (n ≤ length bytes)
      × (crc8 (take 4 bytes) ≡ byte_at bytes 4)
      × (read16 bytes (7 + read16 bytes 1) ≡ crc16 (take (7 + read16 bytes 1) bytes))
      × (Line.frame_ok seq msg len payload ≡ line_of bytes)
unfolding event
event_checked bytes seq msg len payload n e = ground (arith, e)

line_of-append : (f r : List ℕ) → 9 + read16 f 1 ≤ length f → line_of (f ++ r) ≡ line_of f
line_of-append f r h = ground (
  arith,
  get_or-append_left f r 3 0,
  read16-append f r 1,
  read16-append f r 5,
  drop-append_left 7 f r,
  length-drop 7 f,
  take-append_left (read16 f 1) (drop 7 f) r,
)

-- What a frame event takes is a frame of the tool.
event-IsToolFrame :
    (f r : List ℕ) (seq msg len : ℕ) (payload : List ℕ) (n : ℕ)
    → event (f ++ r) ≡ some (Line.frame_ok seq msg len payload, n)
    → length f ≡ n
    → byte_at (f ++ r) 0 ≡ 0xa5
    → IsToolFrame f × (Line.frame_ok seq msg len payload ≡ line_of f)
event-IsToolFrame f r seq msg len payload n e same head =
    let (sized, bound, there, header, body, line) =
      event_checked (f ++ r) seq msg len payload n e in
    let len-same : read16 (f ++ r) 1 ≡ read16 f 1 = read16-append f r 1 (omega (arith)) in
    (
      record {
        size = omega arith;
        bound = omega arith;
        head = sym (get_or-append_left f r 0 0 (omega arith)) ∙ head;
        header = ground (arith, take-append_left 4 f r, get_or-append_left f r 4 0);
        body =
            ground
              (arith, take-append_left (7 + read16 f 1) f r, read16-append f r (7 + read16 f 1));
      },
      line ∙ line_of-append f r (omega arith),
    )

-- Frames that stand in the bytes, in their order and apart from each other.
pub data Contains : List ℕ → List (List ℕ) → Type 0 where
  ends : Contains [] []
  skips :
      {b : ℕ} {bytes : List ℕ} {frames : List (List ℕ)}
      → Contains bytes frames
      → Contains (b ∷ bytes) frames
  has :
      {frame bytes : List ℕ} {frames : List (List ℕ)}
      → IsToolFrame frame
      → Contains bytes frames
      → Contains (frame ++ bytes) (frame ∷ frames)

-- The lines on frames.
unfoldable pub frame_lines : List Line → List Line
frame_lines [] = []
frame_lines (Line.frame_ok seq msg len payload ∷ lines) =
    Line.frame_ok seq msg len payload ∷ frame_lines lines
frame_lines (line ∷ lines) = frame_lines lines

Contains-nothing : (bytes : List ℕ) → Contains bytes []
Contains-nothing [] = Contains.ends
Contains-nothing (b ∷ bytes) = Contains.skips (Contains-nothing bytes)

Contains-drop :
    (n : ℕ) (bytes : List ℕ) {frames : List (List ℕ)}
    → Contains (drop n bytes) frames
    → Contains bytes frames
Contains-drop zero bytes h = h
Contains-drop (suc n) [] h = h
Contains-drop (suc n) (b ∷ bytes) h = Contains.skips (Contains-drop n bytes h)

Contains-cut :
    (bytes : List ℕ) {frames : List (List ℕ)} → Contains (cut bytes) frames → Contains bytes frames
unfolding cut
Contains-cut bytes h = Contains-drop (before_head bytes) bytes h

cut-first : (bytes : List ℕ) → 0 < length (cut bytes) → byte_at (cut bytes) 0 ≡ 0xa5
unfolding cut before_head
cut-first [] h = absurd (omega arith)
cut-first (b ∷ bytes) h = ground (arith, cut-first bytes)

-- What was found: the frames behind the lines.
abbrev pub Found : List ℕ → List Line → Type 0
Found bytes lines =
    (frames : List (List ℕ)) × Contains bytes frames × (map line_of frames ≡ frame_lines lines)

Found-frame :
    (bytes : List ℕ) (seq msg len : ℕ) (payload : List ℕ) (n : ℕ) (lines : List Line)
    → byte_at bytes 0 ≡ 0xa5
    → event bytes ≡ some (Line.frame_ok seq msg len payload, n)
    → Found (drop n bytes) lines
    → Found bytes (Line.frame_ok seq msg len payload ∷ lines)
unfolding frame_lines
Found-frame bytes seq msg len payload n lines head e (frames, there, same) =
    let (some_taken, long, inside) = event_takes bytes (Line.frame_ok seq msg len payload) n e in
    let whole = take-append-drop n bytes in
    let sized : length (take n bytes) ≡ n = omega (arith, length-take n bytes) in
    let (good, line) =
      event-IsToolFrame (take n bytes) (drop n bytes) seq msg len payload n (rw whole e) sized
        (rw whole head) in
    (
      take n bytes ∷ frames,
      subst (λ b. Contains b (take n bytes ∷ frames)) whole (Contains.has good there),
      ap₂ (λ l ls. l ∷ ls) (sym line) same,
    )

Found-event :
    (bytes : List ℕ) (line : Line) (n : ℕ) (lines : List Line)
    → byte_at bytes 0 ≡ 0xa5
    → event bytes ≡ some (line, n)
    → Found (drop n bytes) lines
    → Found bytes (line ∷ lines)
unfolding frame_lines
Found-event bytes (Line.frame_ok seq msg len payload) n lines head e found =
    Found-frame bytes seq msg len payload n lines head e found
Found-event bytes line n lines head e (frames, there, same) =
    (frames, Contains-drop n bytes there, same)

-- The frame lines of a parse are those of frames that stand in the input, apart and in that order.
pub Parse-Contains :
    {bytes : List ℕ} {lines : List Line} {rest : List ℕ}
    → Parse bytes lines rest
    → Found bytes lines
unfolding frame_lines
Parse-Contains {bytes} (Parse.waits e) = ([], Contains-nothing bytes, refl)
Parse-Contains {bytes} (Parse.reports {line = line} {n = n} {lines = lines} e more) =
    let (some_taken, long, inside) = event_takes (cut bytes) line n e in
    let (frames, there, same) =
      Found-event (cut bytes) line n lines (cut-first bytes (omega arith)) e
        (Parse-Contains more) in
    (frames, Contains-cut bytes there, same)
