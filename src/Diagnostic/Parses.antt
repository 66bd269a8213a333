-- ===== src/Diagnostic/Parses.antt =====
-- Laws of the parse of an input: it is unique, and an input may be parsed piece by piece.
use ros2_dji_serial_bridge.Base.{
  ℕ, true, false, ◌+◌, List, [], ◌∷◌, ◌++◌, none, some, length, drop, ◌==◌, ◌≡◌, refl, sym, ap, ◌∙◌,
  subst, ◌<◌, ◌≤◌, arith, Bool-cases, inl, inr, length-append, get_or-append_left, take-append_left,
  drop-append_left, length-drop,
}
use ros2_dji_serial_bridge.Diagnostic.{Line, read16, before_head}
use ros2_dji_serial_bridge.Diagnostic.Events.{cut, event, Parse}

pub cut-head : (b : ℕ) (bytes : List ℕ) → (b == 0xa5) ≡ true → cut (b ∷ bytes) ≡ b ∷ bytes
unfolding cut before_head
cut-head b bytes h = rw h refl

pub cut-other : (b : ℕ) (bytes : List ℕ) → (b == 0xa5) ≡ false → cut (b ∷ bytes) ≡ cut bytes
unfolding cut before_head
cut-other b bytes h = rw h refl

-- Bytes before the first head may be dropped before or after more arrive.
pub cut-cut_append : (xs ys : List ℕ) → cut (cut xs ++ ys) ≡ cut (xs ++ ys)
cut-cut_append [] ys = unfold cut before_head in refl
cut-cut_append (b ∷ xs) ys = elim (Bool-cases (b == 0xa5)) [
  | inl h ↦ ap (λ zs. cut (zs ++ ys)) (cut-head b xs h)
  | inr h ↦
      ap (λ zs. cut (zs ++ ys)) (cut-other b xs h)
      ∙ cut-cut_append xs ys
      ∙ sym (cut-other b (xs ++ ys) h)
]

cut-nil : cut [] ≡ []
unfolding cut before_head
cut-nil = refl

-- A found head stays the first.
pub cut-append : (xs ys : List ℕ) → 0 < length (cut xs) → cut (xs ++ ys) ≡ cut xs ++ ys
cut-append [] ys h = absurd (omega (arith, h, ap length cut-nil))
cut-append (b ∷ xs) ys h = elim (Bool-cases (b == 0xa5)) [
  | inl e ↦ cut-head b (xs ++ ys) e ∙ ap (λ zs. zs ++ ys) (sym (cut-head b xs e))
  | inr e ↦
      let same = cut-other b xs e in
      cut-other b (xs ++ ys) e
      ∙ cut-append xs ys (omega (arith, h, ap length same))
      ∙ ap (λ zs. zs ++ ys) (sym same)
]

-- What an event takes is there.
pub event_takes :
    (bytes : List ℕ) (line : Line) (n : ℕ)
    → event bytes ≡ some (line, n)
    → (0 < n) × (7 ≤ length bytes) × (n ≤ length bytes)
unfolding event
event_takes bytes line n e = ground arith

pub read16-append : (xs ys : List ℕ) (i : ℕ) → i + 1 < length xs → read16 (xs ++ ys) i ≡ read16 xs i
unfolding read16
read16-append xs ys i h =
    rw
      (get_or-append_left xs ys i 0 (omega arith), get_or-append_left xs ys (i + 1) 0 (omega arith))
      refl

-- An event stays when more bytes follow.
pub event-append :
    (xs ys : List ℕ) (line : Line) (n : ℕ)
    → event xs ≡ some (line, n)
    → event (xs ++ ys) ≡ some (line, n)
unfolding event
event-append xs ys line n e = ground (
  arith,
  e,
  length-append xs ys,
  read16-append xs ys 1,
  read16-append xs ys 5,
  read16-append xs ys (7 + read16 xs 1),
  get_or-append_left xs ys 3 0,
  get_or-append_left xs ys 4 0,
  take-append_left 4 xs ys,
  take-append_left 7 xs ys,
  take-append_left (7 + read16 xs 1) xs ys,
  take-append_left (9 + read16 xs 1) xs ys,
  drop-append_left 7 xs ys,
  length-drop 7 xs,
  take-append_left (read16 xs 1) (drop 7 xs) ys,
)

-- Only the bytes from the head on matter.
pub Parse-cut :
    {xs ys : List ℕ} {lines : List Line} {rest : List ℕ}
    → cut xs ≡ cut ys
    → Parse xs lines rest
    → Parse ys lines rest
Parse-cut {ys = ys} same (Parse.waits e) = rw same (Parse.waits (rw (sym same) e))
Parse-cut same (Parse.reports {n = n} e more) =
    Parse.reports {n = n} (rw (sym same) e) (rw (sym same) more)

-- A parse goes the way of its first event.
Parse-stops :
    {xs : List ℕ} {lines : List Line} {rest : List ℕ}
    → Parse xs lines rest
    → event (cut xs) ≡ none
    → ([] ≡ lines) × (cut xs ≡ rest)
Parse-stops (Parse.waits e) stop = (refl, refl)
Parse-stops (Parse.reports e more) stop = absurd (cc)

Parse-goes_on :
    {xs : List ℕ} {lines : List Line} {rest : List ℕ} {line : Line} {n : ℕ}
    → Parse xs lines rest
    → event (cut xs) ≡ some (line, n)
    → (more : List Line) × (line ∷ more ≡ lines) × Parse (drop n (cut xs)) more rest
Parse-goes_on (Parse.waits e) first = absurd (cc)
Parse-goes_on {xs} {rest = rest} {line = line} {n} (Parse.reports {n = m} {lines} e more) first =
    let taken : m ≡ n = cc in
    (lines, cc, subst (λ k. Parse (drop k (cut xs)) lines rest) taken more)

-- An input has one parse.
pub Parse-unique :
    {xs : List ℕ} {lines others : List Line} {rest left : List ℕ}
    → Parse xs lines rest
    → Parse xs others left
    → (lines ≡ others) × (rest ≡ left)
Parse-unique (Parse.waits e) other = Parse-stops other e
Parse-unique (Parse.reports {line = line} e more) other =
    let (ls, same, next) = Parse-goes_on other e in
    let (alike, left) = Parse-unique more next in (ap (λ l. line ∷ l) alike ∙ same, left)

-- What was parsed may be parsed again with what waited at the front of what comes next.
pub Parse-append :
    {xs : List ℕ} (ys : List ℕ) {lines later : List Line} {rest left : List ℕ}
    → Parse xs lines rest
    → Parse (rest ++ ys) later left
    → Parse (xs ++ ys) (lines ++ later) left
Parse-append {xs} ys (Parse.waits e) next = Parse-cut (cut-cut_append xs ys) next
Parse-append {xs} ys (Parse.reports {line = line} {n = n} e more) next =
    let (some_taken, long, there) = event_takes (cut xs) line n e in
    let same = cut-append xs ys (omega arith) in
    Parse.reports {n = n} (rw same (event-append (cut xs) ys line n e))
      (rw (same, drop-append_left n (cut xs) ys there) (Parse-append ys more next))

-- What waits gives no event.
pub Parse-rests :
    {xs : List ℕ} {lines : List Line} {rest : List ℕ} → Parse xs lines rest → event rest ≡ none
Parse-rests (Parse.waits e) = e
Parse-rests (Parse.reports e more) = Parse-rests more

pub Parse-nothing : Parse [] [] []
unfolding cut before_head event
Parse-nothing = Parse.waits {bytes = []} refl
