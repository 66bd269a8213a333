-- ===== src/Diagnostic/Debug/Laws.antt =====
-- What the hex tool's session says of what was read and sent.
use ros2_dji_serial_bridge.Base.{
  concat, concat-append, ℕ, suc, ◌+◌, ◌%◌, ◌≡◌, refl, sym, ap, ap₂, ◌∙◌, subst, arith, Bool, ◌&&◌,
  List, [], ◌∷◌, ◌++◌, length, length-append, append-nil, if◌then◌else◌, Bool-cases, inl, inr,
}
use ros2_dji_serial_bridge.Base.Int.{ℤ, leb_ℤ}
use ros2_dji_serial_bridge.Base.Bytes.{u8}
use ros2_dji_serial_bridge.Diagnostic.{append, test_frame}
use ros2_dji_serial_bridge.Diagnostic.Interop.{fresh_parser}
use ros2_dji_serial_bridge.Diagnostic.Options.{Options}
use ros2_dji_serial_bridge.Diagnostic.Debug.{
  Sent, Output, Session, Round, RoundEnd, receive, is_zero, after_sending, transmit, debug_turn,
  debug_loop, start_session,
}
use ros2_dji_serial_bridge.Diagnostic.Debug.Sending.{send_all_whole}
use ros2_dji_serial_bridge.Diagnostic.Debug.Outputs.{
  chunks_read, frames_sent, chunks_read-append, frames_sent-append, test_frames,
}
use ros2_dji_serial_bridge.Diagnostic.Refines.{parse_chunks, parse_chunks-append}

-- The parser has seen, and the log file holds, what was printed as read.
pub record ReadsTrue (logging : Bool) (s : Session) : Type 0 where
  pub parsed : s.parser ≡ parse_chunks fresh_parser (chunks_read s.output)
  pub logged : s.log ≡ (if logging then concat (chunks_read s.output) else [])

-- What was printed as sent are the test frames numbered from 0 modulo 256, and the port has taken
-- exactly these.
pub record SendsTrue (s : Session) : Type 0 where
  pub frames : frames_sent s.output ≡ test_frames (length (frames_sent s.output))
  pub taken : s.port_took ≡ concat (frames_sent s.output)
  pub sequence : s.sequence ≡ length (frames_sent s.output) % 256

abbrev pub EndsTrue : (logging : Bool) → RoundEnd → Type 0
EndsTrue logging (RoundEnd.next s) = ReadsTrue logging s × SendsTrue s
EndsTrue logging (RoundEnd.throws error s) = ReadsTrue logging s
EndsTrue logging (RoundEnd.blocked s) = ReadsTrue logging s

receive-ReadsTrue :
    (logging : Bool) (bytes : List ℕ) (s : Session)
    → ReadsTrue logging s
    → ReadsTrue logging (receive logging bytes s)
unfolding receive
receive-ReadsTrue logging [] s h = h
receive-ReadsTrue logging (b ∷ bytes) s h =
    let old = chunks_read s.output in
    let more = chunks_read-append s.output (Output.rx (b ∷ bytes) ∷ []) in
    let read =
      concat-append old ((b ∷ bytes) ∷ []) ∙ ap (λ t. concat old ++ t) (append-nil (b ∷ bytes)) in
    record {
      parsed =
          ap (append (b ∷ bytes)) h.parsed
          ∙ sym (parse_chunks-append fresh_parser old ((b ∷ bytes) ∷ []))
          ∙ ap (parse_chunks fresh_parser) (sym more);
      logged = ground (arith, more, read, h.logged);
    }

receive-SendsTrue :
    (logging : Bool) (bytes : List ℕ) (s : Session)
    → SendsTrue s
    → SendsTrue (receive logging bytes s)
unfolding receive
receive-SendsTrue logging [] s h = h
receive-SendsTrue logging (b ∷ bytes) s h =
    let same = sym (
      frames_sent-append s.output (Output.rx (b ∷ bytes) ∷ [])
      ∙ append-nil (frames_sent s.output)) in
    record {
      frames = subst (λ fs. fs ≡ test_frames (length fs)) same h.frames;
      taken = h.taken ∙ ap concat same;
      sequence = h.sequence ∙ ap (λ (fs : List (List ℕ)). length fs % 256) same;
    }

-- A line about a sent frame is none about read bytes.
said-ReadsTrue :
    (logging : Bool) (frame : List ℕ) (s : Session)
    → ReadsTrue logging s
    → ReadsTrue logging (record s { output = s.output ++ (Output.tx frame ∷ []) })
said-ReadsTrue logging frame s h =
    let same =
      sym
        (chunks_read-append s.output (Output.tx frame ∷ []) ∙ append-nil (chunks_read s.output)) in
    record {
      parsed = h.parsed ∙ ap (parse_chunks fresh_parser) same;
      logged = h.logged ∙ ap (λ cs. if logging then concat cs else []) same;
    }

-- One more test frame, taken whole.
said-SendsTrue :
    (s t : Session)
    → SendsTrue s
    → t.output ≡ s.output ++ (Output.tx (test_frame s.sequence) ∷ [])
    → t.port_took ≡ s.port_took ++ test_frame s.sequence
    → t.sequence ≡ u8 (s.sequence + 1)
    → SendsTrue t
said-SendsTrue s t h out took stepped =
    let old = frames_sent s.output in
    let frame = test_frame s.sequence in
    let more : frames_sent t.output ≡ old ++ (frame ∷ []) =
      ap frames_sent out ∙ frames_sent-append s.output (Output.tx frame ∷ []) in
    let size : length (frames_sent t.output) ≡ suc (length old) =
      omega (arith, ap (λ (fs : List (List ℕ)). length fs) more, length-append old (frame ∷ [])) in
    record {
      frames =
          more
          ∙ ap₂ (λ fs k. fs ++ (test_frame k ∷ [])) h.frames h.sequence
          ∙ ap test_frames (sym size);
      taken =
          took
          ∙ ap₂ ◌++◌ h.taken (sym (append-nil frame))
          ∙ sym (concat-append old (frame ∷ []))
          ∙ ap concat (sym more);
      sequence = omega (arith, stepped, h.sequence, size);
    }

module _ (period : ℕ → ℤ) where
  after_sending-EndsTrue :
      (logging : Bool) (rate : ℕ) (next_tx : ℤ) (sent : Sent) (s t : Session)
      → ReadsTrue logging t
      → (sent ≡ Sent.complete
          → SendsTrue (record t {
            output = t.output ++ (Output.tx (test_frame s.sequence) ∷ []);
            next_tx = next_tx;
          }))
      → EndsTrue logging (after_sending rate (test_frame s.sequence) next_tx sent t)
  unfolding after_sending
  after_sending-EndsTrue logging rate next_tx Sent.waiting s t h g = h
  after_sending-EndsTrue logging rate next_tx Sent.failed s t h g = h
  after_sending-EndsTrue logging rate next_tx Sent.complete s t h g =
      let said = said-ReadsTrue logging (test_frame s.sequence) t h in
      elim (Bool-cases (is_zero rate)) [
        | inl stop ↦ rw stop said
        | inr go_on ↦ rw go_on (record { parsed = said.parsed; logged = said.logged }, g refl)
      ]

  transmit-EndsTrue :
      (logging : Bool) (rate : ℕ) (round : Round) (s : Session)
      → ReadsTrue logging s
      → SendsTrue s
      → EndsTrue logging (transmit period rate round s)
  unfolding transmit
  transmit-EndsTrue logging rate round s h g =
      after_sending-EndsTrue logging rate _ _ s _ (record { parsed = h.parsed; logged = h.logged })
        (λ whole.
          said-SendsTrue s _ g refl
            (ap (λ t. s.port_took ++ t) (send_all_whole round.writes (test_frame s.sequence) whole))
            refl)

  debug_turn-EndsTrue :
      (o : Options) (logging : Bool) (round : Round) (s : Session)
      → ReadsTrue logging s
      → SendsTrue s
      → EndsTrue logging (debug_turn period o logging round s)
  unfolding debug_turn
  debug_turn-EndsTrue o logging round s h g =
      let read = receive logging round.received s in
      let r = receive-ReadsTrue logging round.received s h in
      let q = receive-SendsTrue logging round.received s g in
      elim (Bool-cases (o.tx && leb_ℤ read.next_tx round.now)) [
        | inl due ↦ rw due (transmit-EndsTrue logging o.rate round read r q)
        | inr idle ↦ rw idle (r, q)
      ]

  after_turn-EndsTrue :
      (o : Options) (logging : Bool) (rounds : List Round) (e : RoundEnd)
      → EndsTrue logging e
      → ((t : Session)
          → ReadsTrue logging t
          → SendsTrue t
          → EndsTrue logging (debug_loop period o logging rounds t))
      → EndsTrue logging (elim e [
        | RoundEnd.next t ↦ debug_loop period o logging rounds t
        | RoundEnd.throws error t ↦ RoundEnd.throws error t
        | RoundEnd.blocked t ↦ RoundEnd.blocked t
      ])
  after_turn-EndsTrue o logging rounds (RoundEnd.next t) h goes_on = goes_on t h.0 h.1
  after_turn-EndsTrue o logging rounds (RoundEnd.throws error t) h goes_on = h
  after_turn-EndsTrue o logging rounds (RoundEnd.blocked t) h goes_on = h

  -- Over any rounds, whatever is read and however `write` splits the frames: the parser has been given
  -- the chunks that were printed as read, in order, and the log file holds their bytes if there is
  -- one; and as long as no exception is thrown and no frame is half sent, the frames printed as sent
  -- are the test frames numbered from 0 modulo 256, and the port has taken exactly their bytes.
  pub debug_loop-EndsTrue :
      (o : Options) (logging : Bool) (rounds : List Round) (s : Session)
      → ReadsTrue logging s
      → SendsTrue s
      → EndsTrue logging (debug_loop period o logging rounds s)
  unfolding debug_loop
  debug_loop-EndsTrue o logging [] s h g = (h, g)
  debug_loop-EndsTrue o logging (round ∷ rounds) s h g =
      after_turn-EndsTrue o logging rounds (debug_turn period o logging round s)
        (debug_turn-EndsTrue o logging round s h g) (λ t. debug_loop-EndsTrue o logging rounds t)

-- The session starts so.
pub start_session-true :
    (o : Options) (logging : Bool) (now : ℤ)
    → ReadsTrue logging (start_session o now) × SendsTrue (start_session o now)
unfolding start_session
start_session-true o logging now = (
  record { parsed = refl; logged = ground arith },
  record { frames = refl; taken = refl; sequence = refl },
)
