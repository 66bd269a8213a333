-- ===== src/Diagnostic/Debug/Sending.antt =====
-- The loop that sends a frame over partial writes.
use ros2_dji_serial_bridge.Base.{
  ℕ, ◌+◌, ◌≤◌, ◌≡◌, refl, ap, ◌∙◌, arith, List, [], ◌∷◌, ◌++◌, length, take, drop, length-drop,
  take-append-drop, append_assoc,
}
use ros2_dji_serial_bridge.Diagnostic.Debug.{WriteResult, Sent, send_all}

-- The sum of the counts.
abbrev pub total : List WriteResult → ℕ
total [] = 0
total (WriteResult.took count ∷ results) = count + total results
total (WriteResult.busy ∷ results) = total results
total (WriteResult.broken ∷ results) = total results

abbrev pub NeverBroken : List WriteResult → Type 0
NeverBroken [] = Unit {0}
NeverBroken (WriteResult.took count ∷ results) = NeverBroken results
NeverBroken (WriteResult.busy ∷ results) = NeverBroken results
NeverBroken (WriteResult.broken ∷ results) = ⊥

-- However `write` splits a frame, and however often it is busy: once the counts add up to the frame's
-- length, and if no write has failed, the loop has ended and the port has taken the frame, each byte
-- once and in order.
pub send_all-complete :
    (results : List WriteResult) (frame : List ℕ)
    → NeverBroken results
    → length frame ≤ total results
    → send_all results frame ≡ (Sent.complete, frame)
unfolding send_all
send_all-complete results [] h k = refl
send_all-complete [] (b ∷ frame) h k = absurd (omega arith)
send_all-complete (WriteResult.took count ∷ results) (b ∷ frame) h k = ground (
  arith,
  length-drop count (b ∷ frame),
  take-append-drop count (b ∷ frame),
  send_all-complete results (drop count (b ∷ frame)) h,
)
send_all-complete (WriteResult.busy ∷ results) (b ∷ frame) h k =
    send_all-complete results (b ∷ frame) h k
send_all-complete (WriteResult.broken ∷ results) (b ∷ frame) h k = absurd h

-- What was taken, and the rest.
send_all_rest :
    (results : List WriteResult) (frame : List ℕ)
    → (rest : List ℕ) × ((send_all results frame).1 ++ rest ≡ frame)
unfolding send_all
send_all_rest results [] = ([], refl)
send_all_rest [] (b ∷ frame) = (b ∷ frame, refl)
send_all_rest (WriteResult.took count ∷ results) (b ∷ frame) =
    let (rest, e) = send_all_rest results (drop count (b ∷ frame)) in
    (
      rest,
      append_assoc (take count (b ∷ frame)) _ rest
          ∙ ap (λ t. take count (b ∷ frame) ++ t) e
          ∙ take-append-drop count (b ∷ frame),
    )
send_all_rest (WriteResult.busy ∷ results) (b ∷ frame) = send_all_rest results (b ∷ frame)
send_all_rest (WriteResult.broken ∷ results) (b ∷ frame) = (b ∷ frame, refl)

-- The loop ends well only with the whole frame taken.
pub send_all_whole :
    (results : List WriteResult) (frame : List ℕ)
    → (send_all results frame).0 ≡ Sent.complete
    → (send_all results frame).1 ≡ frame
unfolding send_all
send_all_whole results [] e = refl
send_all_whole [] (b ∷ frame) e = cc
send_all_whole (WriteResult.took count ∷ results) (b ∷ frame) e =
    ap (λ t. take count (b ∷ frame) ++ t) (send_all_whole results (drop count (b ∷ frame)) e)
    ∙ take-append-drop count (b ∷ frame)
send_all_whole (WriteResult.busy ∷ results) (b ∷ frame) e = send_all_whole results (b ∷ frame) e
send_all_whole (WriteResult.broken ∷ results) (b ∷ frame) e = cc
