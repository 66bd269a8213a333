-- ===== src/Node/Callbacks/Frames.antt =====
-- The frames that the callbacks write: numbered one after the other, each a wire frame.
use ros2_dji_serial_bridge.Base.{
  ℕ, append-nil, suc, ◌+◌, ◌%◌, ◌^◌, ◌<◌, ◌≡◌, refl, sym, ap, ◌∙◌, arith, Bool, true, false, List,
  [], ◌∷◌, ◌++◌, Option, length, if◌then◌else◌, subst, length-append,
}
use ros2_dji_serial_bridge.Base.Bytes.{AreBytes, IsByte}
use ros2_dji_serial_bridge.Protocol.{
  McbMsgType, msg_type_id, nav_goal_bytes, cv_target_bytes, relocalize_bytes, ping_bytes,
}
use ros2_dji_serial_bridge.Protocol.Wire.{wire_frame}
use ros2_dji_serial_bridge.Node.State.{Node, Event, Log, CvTarget, Ping, PointStamped, emit}
use ros2_dji_serial_bridge.Node.Transmit.{send_frame}
use ros2_dji_serial_bridge.Node.Transmit.Laws.{
  frames_written, frames_written-append, send_frame-writes,
}
use ros2_dji_serial_bridge.Node.Callbacks.{
  nav_goal_callback, cv_target_callback, relocalize_callback, ping_callback, cv_payload, cv_flags,
}

-- The frames from the `k`-th on: each the wire frame of some message with its own number.
abbrev pub AreNumbered : ℕ → List (List ℕ) → Type 0
AreNumbered k [] = Unit {0}
AreNumbered k (frame ∷ frames) =
    ((m : McbMsgType) × (payload : List ℕ) × (frame ≡ wire_frame (msg_type_id m) (k % 256) payload))
    × AreNumbered (suc k) frames

AreNumbered-append :
    (k j : ℕ) (xs ys : List (List ℕ))
    → j ≡ k + length xs
    → AreNumbered k xs
    → AreNumbered j ys
    → AreNumbered k (xs ++ ys)
AreNumbered-append k j [] ys e h g =
    let same : j ≡ k = omega arith in subst (λ i. AreNumbered i ys) same g
AreNumbered-append k j (x ∷ xs) ys e h g =
    (h.0, AreNumbered-append (suc k) j xs ys (omega arith) h.1 g)

-- The node's next number is the count of frames, and the frames are numbered from 0.
pub record IsNumbered (n : Node) : Type 0 where
  pub next : n.tx_seq ≡ length (frames_written n.events) % 256
  pub frames : AreNumbered 0 (frames_written n.events)

pub IsNumbered-same :
    (n t : Node)
    → t.tx_seq ≡ n.tx_seq
    → frames_written t.events ≡ frames_written n.events
    → IsNumbered n
    → IsNumbered t
IsNumbered-same n t e f h = record {
  next = e ∙ h.next ∙ ap (λ (xs : List (List ℕ)). length xs % 256) (sym f);
  frames = subst (AreNumbered 0) (sym f) h.frames;
}

pub send_frame-IsNumbered :
    (write : List ℕ → Option ℕ) (m : McbMsgType) (payload : List ℕ) (n : Node)
    → length payload < 2 ^ 16
    → AreBytes payload
    → IsNumbered n
    → IsNumbered (send_frame write m payload n).0
send_frame-IsNumbered write m payload n hl hp h =
    let old = frames_written n.events in
    let new = wire_frame (msg_type_id m) n.tx_seq payload in
    let (written, stepped, _) = send_frame-writes write m payload n (omega (arith, h.next)) hl hp in
    record {
      next = omega (arith, stepped, h.next, ap length written, length-append old (new ∷ []));
      frames = subst (AreNumbered 0) (sym written) (
          AreNumbered-append 0 (length old) old (new ∷ []) (omega arith) h.frames
            (((m, payload, ap (λ s. wire_frame (msg_type_id m) s payload) h.next), tt)));
    }

-- The payloads are bytes, in any message.
cv_flags-lt : (msg : CvTarget) → cv_flags msg < 8
unfolding cv_flags
cv_flags-lt msg = ground arith

pub cv_target_bytes-AreBytes : (msg : CvTarget) → AreBytes (cv_target_bytes (cv_payload msg))
unfolding cv_target_bytes cv_payload
cv_target_bytes-AreBytes msg = omega (arith, cv_flags-lt msg)

-- A log line is no frame.
pub emit_line-IsNumbered :
    (line : Log) (n : Node) → IsNumbered n → IsNumbered (emit (Event.logged line ∷ []) n)
unfolding emit
emit_line-IsNumbered line n h =
    IsNumbered-same n (record n { events = n.events ++ (Event.logged line ∷ []) }) refl
      (frames_written-append n.events (Event.logged line ∷ [])
        ∙ append-nil (frames_written n.events))
      h

pub tested-IsNumbered :
    (ok : Bool) (n t : Node) → IsNumbered n → IsNumbered t → IsNumbered (if ok then n else t)
tested-IsNumbered true n t h g = h
tested-IsNumbered false n t h g = g

-- A change of the counters only.
pub same_frames :
    (n t : Node) → t.tx_seq ≡ n.tx_seq → t.events ≡ n.events → IsNumbered n → IsNumbered t
same_frames n t e f h = IsNumbered-same n t e (ap frames_written f) h

module _ (write : List ℕ → Option ℕ) where
  pub cv_target_callback-IsNumbered :
      (msg : CvTarget) (n : Node) → IsNumbered n → IsNumbered (cv_target_callback write msg n)
  unfolding cv_target_callback
  cv_target_callback-IsNumbered msg n h =
      let payload = cv_target_bytes (cv_payload msg) in
      let sent =
        send_frame-IsNumbered write McbMsgType.cv_target payload n
          (unfold cv_target_bytes in omega arith) (cv_target_bytes-AreBytes msg) h in
      tested-IsNumbered (send_frame write McbMsgType.cv_target payload n).1 _ _
        (same_frames _ _ refl refl sent)
        (emit_line-IsNumbered (Log.send_failed McbMsgType.cv_target) _ sent)

  pub ping_callback-IsNumbered :
      (msg : Ping) (n : Node)
      → IsByte msg.number
      → IsNumbered n
      → IsNumbered (ping_callback write msg n)
  unfolding ping_callback
  ping_callback-IsNumbered msg n b h =
      let payload = ping_bytes (record { number = msg.number }) in
      let sent =
        send_frame-IsNumbered write McbMsgType.ping payload n (unfold ping_bytes in omega arith)
          (unfold ping_bytes in omega arith) h in
      let counted = same_frames _ _ refl refl sent in
      tested-IsNumbered (send_frame write McbMsgType.ping payload n).1 _ _
        (tested-IsNumbered n.debug_log _ _ (emit_line-IsNumbered (Log.ping_tx msg.number) _ counted)
          counted)
        (emit_line-IsNumbered (Log.send_failed McbMsgType.ping) _ sent)

  module _ (to_float : ℕ → ℕ) where
    pub nav_goal_callback-IsNumbered :
        (msg : PointStamped) (n : Node)
        → IsNumbered n
        → IsNumbered (nav_goal_callback write to_float msg n)
    unfolding nav_goal_callback
    nav_goal_callback-IsNumbered msg n h =
        let payload = nav_goal_bytes (record { x = to_float msg.x; y = to_float msg.y }) in
        let sent =
          send_frame-IsNumbered write McbMsgType.nav_goal payload n
            (unfold nav_goal_bytes in omega arith) (unfold nav_goal_bytes in omega arith) h in
        tested-IsNumbered (send_frame write McbMsgType.nav_goal payload n).1 _ _
          (same_frames _ _ refl refl sent)
          (emit_line-IsNumbered (Log.send_failed McbMsgType.nav_goal) _ sent)

    pub relocalize_callback-IsNumbered :
        (msg : PointStamped) (n : Node)
        → IsNumbered n
        → IsNumbered (relocalize_callback write to_float msg n)
    unfolding relocalize_callback
    relocalize_callback-IsNumbered msg n h =
        let payload = relocalize_bytes (record { x = to_float msg.x; y = to_float msg.y }) in
        let sent =
          send_frame-IsNumbered write McbMsgType.relocalize payload n
            (unfold relocalize_bytes in omega arith) (unfold relocalize_bytes in omega arith) h in
        tested-IsNumbered (send_frame write McbMsgType.relocalize payload n).1 _ _
          (emit_line-IsNumbered _ _ (same_frames _ _ refl refl sent))
          (emit_line-IsNumbered (Log.send_failed McbMsgType.relocalize) _ sent)
