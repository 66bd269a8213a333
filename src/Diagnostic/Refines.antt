-- ===== src/Diagnostic/Refines.antt =====
-- The frame parser does the parse of its whole input, however the input is cut into chunks.
use ros2_dji_serial_bridge.Base.{
  concat, ℕ, zero, suc, List, [], ◌∷◌, ◌++◌, none, length, ◌≡◌, refl, sym, ap, ◌∙◌, subst, ◌<◌, ◌≤◌,
  arith, append-nil, append_assoc, length-drop,
}
use ros2_dji_serial_bridge.Diagnostic.{
  Line, FrameParser, ParserTurn, parser_turn, parser_loop, append,
}
use ros2_dji_serial_bridge.Diagnostic.Events.{cut, event, kept, Parse}
use ros2_dji_serial_bridge.Diagnostic.Parses.{
  Parse-rests, Parse-cut, cut-cut_append, Parse-append, event_takes,
}
use ros2_dji_serial_bridge.Diagnostic.Stream.{Agrees, parser_turn-Agrees, length-cut}

-- From `p` to `q` the parser has parsed `bytes`: what waits then is what it holds from the head on.
abbrev Parsed : List ℕ → FrameParser → FrameParser → Type 0
Parsed bytes p q =
    (lines : List Line) × Parse bytes lines (cut q.buffer)
    × (kept q.printed ≡ kept p.printed ++ lines)

after_turn :
    (fuel : ℕ) (p : FrameParser) (r : ParserTurn)
    → Agrees (cut p.buffer) (kept p.printed) r
    → length p.buffer ≤ fuel
    → ((q : FrameParser) → length q.buffer < fuel → Parsed q.buffer q (parser_loop fuel q))
    → Parsed p.buffer p
        (elim r [ ParserTurn.again q ↦ parser_loop fuel q | ParserTurn.leave q ↦ q ])
after_turn fuel p (ParserTurn.leave q) (stop, same, alike) short goes_on =
    ([], rw same (Parse.waits stop), alike ∙ sym (append-nil (kept p.printed)))
after_turn fuel p (ParserTurn.again q) (line, n, e, left, said) short goes_on =
    let takes = event_takes (cut p.buffer) line n e in
    let less : length q.buffer < fuel =
      omega
        (arith, takes, short, ap length left, length-drop n (cut p.buffer), length-cut p.buffer) in
    let (lines, more, alike) = goes_on q less in
    (
      line ∷ lines,
      Parse.reports {n = n} e
          (subst (λ b. Parse b lines (cut (parser_loop fuel q).buffer)) left more),
      alike ∙ ap (λ l. l ++ lines) said ∙ append_assoc (kept p.printed) (line ∷ []) lines,
    )

parser_loop-Parsed :
    (fuel : ℕ) (p : FrameParser) → length p.buffer < fuel → Parsed p.buffer p (parser_loop fuel p)
unfolding parser_loop
parser_loop-Parsed zero p h = absurd (omega arith)
parser_loop-Parsed (suc fuel) p h =
    after_turn fuel p (parser_turn p) (parser_turn-Agrees p) (omega arith) (parser_loop-Parsed fuel)

append-Parsed : (bytes : List ℕ) (p : FrameParser) → Parsed (p.buffer ++ bytes) p (append bytes p)
unfolding append
append-Parsed bytes p =
    let loaded : FrameParser = record p { buffer = p.buffer ++ bytes } in
    parser_loop-Parsed (suc (length loaded.buffer)) loaded (omega arith)

-- The reads, one `append` each.
abbrev pub parse_chunks : FrameParser → List (List ℕ) → FrameParser
parse_chunks p [] = p
parse_chunks p (chunk ∷ chunks) = parse_chunks (append chunk p) chunks

pub parse_chunks-append :
    (p : FrameParser) (xs ys : List (List ℕ))
    → parse_chunks p (xs ++ ys) ≡ parse_chunks (parse_chunks p xs) ys
parse_chunks-append p [] ys = refl
parse_chunks-append p (x ∷ xs) ys = parse_chunks-append (append x p) xs ys

-- A parser that has read every chunk at once or in turn waits at the same place.
pub parse_chunks-Parsed :
    (chunks : List (List ℕ)) (p : FrameParser)
    → event (cut p.buffer) ≡ none
    → Parsed (p.buffer ++ concat chunks) p (parse_chunks p chunks)
parse_chunks-Parsed [] p waiting =
    ([], rw (append-nil p.buffer) (Parse.waits waiting), sym (append-nil (kept p.printed)))
parse_chunks-Parsed (chunk ∷ chunks) p waiting =
    let (lines, first, said) = append-Parsed chunk p in
    let q : FrameParser = append chunk p in
    let (later, next, also) = parse_chunks-Parsed chunks q (Parse-rests first) in
    (
      lines ++ later,
      subst (λ b. Parse b (lines ++ later) (cut (parse_chunks q chunks).buffer))
          (append_assoc p.buffer chunk (concat chunks))
          (Parse-append (concat chunks) first
            (Parse-cut (sym (cut-cut_append q.buffer (concat chunks))) next)),
      also ∙ ap (λ l. l ++ later) said ∙ append_assoc (kept p.printed) lines later,
    )
