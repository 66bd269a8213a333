-- ===== src/Diagnostic/Debug/Outputs.antt =====
-- What the hex tool printed as read and as sent, and what that amounts to.
use ros2_dji_serial_bridge.Base.{ℕ, zero, suc, ◌%◌, ◌≡◌, refl, ap, List, [], ◌∷◌, ◌++◌}
use ros2_dji_serial_bridge.Diagnostic.{test_frame}
use ros2_dji_serial_bridge.Diagnostic.Debug.{Output}

-- The chunks of bytes that were printed as read, and the frames that were printed as sent.
abbrev pub chunks_read : List Output → List (List ℕ)
chunks_read [] = []
chunks_read (Output.rx bytes ∷ out) = bytes ∷ chunks_read out
chunks_read (Output.tx bytes ∷ out) = chunks_read out
chunks_read (Output.opened device baud ∷ out) = chunks_read out
chunks_read (Output.statistics a b c d ∷ out) = chunks_read out

abbrev pub frames_sent : List Output → List (List ℕ)
frames_sent [] = []
frames_sent (Output.rx bytes ∷ out) = frames_sent out
frames_sent (Output.tx bytes ∷ out) = bytes ∷ frames_sent out
frames_sent (Output.opened device baud ∷ out) = frames_sent out
frames_sent (Output.statistics a b c d ∷ out) = frames_sent out

pub chunks_read-append :
    (xs ys : List Output) → chunks_read (xs ++ ys) ≡ chunks_read xs ++ chunks_read ys
chunks_read-append [] ys = refl
chunks_read-append (Output.rx bytes ∷ xs) ys = ap (◌∷◌ bytes) (chunks_read-append xs ys)
chunks_read-append (Output.tx bytes ∷ xs) ys = chunks_read-append xs ys
chunks_read-append (Output.opened device baud ∷ xs) ys = chunks_read-append xs ys
chunks_read-append (Output.statistics a b c d ∷ xs) ys = chunks_read-append xs ys

pub frames_sent-append :
    (xs ys : List Output) → frames_sent (xs ++ ys) ≡ frames_sent xs ++ frames_sent ys
frames_sent-append [] ys = refl
frames_sent-append (Output.rx bytes ∷ xs) ys = frames_sent-append xs ys
frames_sent-append (Output.tx bytes ∷ xs) ys = ap (◌∷◌ bytes) (frames_sent-append xs ys)
frames_sent-append (Output.opened device baud ∷ xs) ys = frames_sent-append xs ys
frames_sent-append (Output.statistics a b c d ∷ xs) ys = frames_sent-append xs ys

-- The first test frames.
abbrev pub test_frames : ℕ → List (List ℕ)
test_frames zero = []
test_frames (suc k) = test_frames k ++ (test_frame (k % 256) ∷ [])
