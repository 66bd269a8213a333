-- ===== src/Diagnostic/Parser.antt =====
-- `FrameParser::append`: its loop ends, what it leaves in the buffer, and what its counters say.
use ros2_dji_serial_bridge.Base.{
  ℕ, Bool-cases, ◌⊎◌, inl, inr, ltb→lt, zero, suc, ◌+◌, ◌≤◌, ◌<◌, ◌≡◌, refl, sym, ap, ◌∙◌, subst,
  arith, true, false, List, [], ◌∷◌, ◌++◌, length, drop, ltb, ◌==◌, length-drop,
}
use ros2_dji_serial_bridge.Base.Bytes.{u64}
use ros2_dji_serial_bridge.Diagnostic.{
  Line, FrameParser, ParserTurn, read16, before_head, print, check_frame, at_head, skip_garbage,
  parser_turn, parser_loop, append,
}

at_head_shrinks :
    (p q : FrameParser) → at_head p ≡ ParserTurn.again q → length q.buffer < length p.buffer
unfolding at_head check_frame
at_head_shrinks p q e =
    ground (arith, length-drop 1 p.buffer, length-drop (9 + read16 p.buffer 1) p.buffer)

skip_garbage_shortens : (p : FrameParser) → length (skip_garbage p).buffer ≤ length p.buffer
unfolding skip_garbage
skip_garbage_shortens p = ground (arith, length-drop (before_head p.buffer) p.buffer)

parser_turn_shrinks :
    (p q : FrameParser) → parser_turn p ≡ ParserTurn.again q → length q.buffer < length p.buffer
unfolding parser_turn
parser_turn_shrinks p q e =
    ground (arith, at_head_shrinks (skip_garbage p) q, skip_garbage_shortens p)

-- What a turn leaves is short, and another turn does nothing to it.
at_head_leaves :
    (p q : FrameParser) → at_head p ≡ ParserTurn.leave q → (length q.buffer < 4096) × (q ≡ p)
unfolding at_head check_frame
at_head_leaves p q e = ground arith

pub before_head-drop : (bytes : List ℕ) → before_head (drop (before_head bytes) bytes) ≡ 0
unfolding before_head
before_head-drop [] = refl
before_head-drop (b ∷ bytes) = ground (arith, before_head-drop bytes)

pub skip_garbage_head : (p : FrameParser) → before_head (skip_garbage p).buffer ≡ 0
unfolding skip_garbage
skip_garbage_head p = ground (arith, before_head-drop p.buffer)

skip_nothing : (p : FrameParser) → before_head p.buffer ≡ 0 → skip_garbage p ≡ p
unfolding skip_garbage
skip_nothing p h = ground arith

turn_at_head :
    (p : FrameParser)
    → before_head p.buffer ≡ 0
    → at_head p ≡ ParserTurn.leave p
    → parser_turn p ≡ ParserTurn.leave p
unfolding parser_turn
turn_at_head p h e = ground (arith, skip_nothing p h)

leave_inverse : (p q : FrameParser) → ParserTurn.leave p ≡ ParserTurn.leave q → p ≡ q
leave_inverse p q e = cc

short_leaves : (p : FrameParser) → length p.buffer < 7 → parser_turn p ≡ ParserTurn.leave p
unfolding parser_turn
short_leaves p h = ground arith

-- The parser waits for the rest of a header or of a frame.
abbrev AtRest : FrameParser → Type 0
AtRest q = (length q.buffer < 4096) × (parser_turn q ≡ ParserTurn.leave q)

short-AtRest : (p : FrameParser) → length p.buffer < 7 → AtRest p
short-AtRest p h = (omega arith, short_leaves p h)

at_head-AtRest : (p q : FrameParser) → at_head (skip_garbage p) ≡ ParserTurn.leave q → AtRest q
at_head-AtRest p q e =
    let (short, same) = at_head_leaves (skip_garbage p) q e in
    (
      short,
      subst (λ r. parser_turn r ≡ ParserTurn.leave r) (sym same)
          (turn_at_head (skip_garbage p) (skip_garbage_head p)
            (e ∙ ap (λ r. ParserTurn.leave r) same)),
    )

-- The exit of a buffer without a frame head.
abbrev pub lost_sync : FrameParser → FrameParser
lost_sync p =
    record (print (Line.desync (length p.buffer)) (record p { desyncs = u64 (p.desyncs + 1) })) {
      buffer = [];
    }

lost_turn :
    (p : FrameParser)
    → ltb (length p.buffer) 7 ≡ false
    → (before_head p.buffer == length p.buffer) ≡ true
    → parser_turn p ≡ ParserTurn.leave (lost_sync p)
unfolding parser_turn
lost_turn p long lost = rw (long, lost) refl

parser_turn-AtRest : (p q : FrameParser) → parser_turn p ≡ ParserTurn.leave q → AtRest q
parser_turn-AtRest p q e =
    turned (Bool-cases (ltb (length p.buffer) 7))
      (Bool-cases (before_head p.buffer == length p.buffer))
  where
    turned :
        (ltb (length p.buffer) 7 ≡ true) ⊎ (ltb (length p.buffer) 7 ≡ false)
        → ((before_head p.buffer == length p.buffer) ≡ true)
          ⊎ ((before_head p.buffer == length p.buffer) ≡ false)
        → AtRest q
    turned (inl short) o =
        subst AtRest (leave_inverse p q (sym (short_leaves p (ltb→lt _ 7 short)) ∙ e))
          (short-AtRest p (ltb→lt _ 7 short))
    turned (inr long) (inl lost) =
        subst AtRest (leave_inverse (lost_sync p) q (sym (lost_turn p long lost) ∙ e))
          (short-AtRest (lost_sync p) (omega arith))
    turned (inr long) (inr found) = at_head-AtRest p q (unfold parser_turn in rw (long, found) at e)

after_turn :
    (fuel : ℕ) (r : ParserTurn)
    → ((q : FrameParser) → r ≡ ParserTurn.again q → AtRest (parser_loop fuel q))
    → ((q : FrameParser) → r ≡ ParserTurn.leave q → AtRest q)
    → AtRest (elim r [ ParserTurn.again q ↦ parser_loop fuel q | ParserTurn.leave q ↦ q ])
after_turn fuel (ParserTurn.again q) goes_on leaves = goes_on q refl
after_turn fuel (ParserTurn.leave q) goes_on leaves = leaves q refl

-- With more fuel than bytes the loop reaches a turn that leaves it.
parser_loop-AtRest :
    (fuel : ℕ) (p : FrameParser) → length p.buffer < fuel → AtRest (parser_loop fuel p)
unfolding parser_loop
parser_loop-AtRest zero p h = absurd (omega arith)
parser_loop-AtRest (suc fuel) p h =
    after_turn fuel (parser_turn p)
      (λ q e. parser_loop-AtRest fuel q (omega (arith, parser_turn_shrinks p q e)))
      (λ q e. parser_turn-AtRest p q e)

-- Whatever is appended, the parser's loop ends by its own exits: another turn would leave at once with
-- nothing changed. The bytes that it keeps are fewer than 4096.
pub append-AtRest :
    (bytes : List ℕ) (p : FrameParser)
    → (length (append bytes p).buffer < 4096)
      × (parser_turn (append bytes p) ≡ ParserTurn.leave (append bytes p))
unfolding append
append-AtRest bytes p =
    let loaded : FrameParser = record p { buffer = p.buffer ++ bytes } in
    parser_loop-AtRest (suc (length loaded.buffer)) loaded (omega arith)
