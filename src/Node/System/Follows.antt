-- ===== src/Node/System/Follows.antt =====
-- What the node remembers of the poses, and what it says about them.
use ros2_dji_serial_bridge.Base.{
  ℕ, ◌+◌, ◌≡◌, refl, sym, ap, subst, ◌∙◌, arith, Bool, true, false, List, [], ◌∷◌, ◌++◌, append-nil,
  Option, some, length, All, if◌then◌else◌,
}
use ros2_dji_serial_bridge.Base.Int.{ℤ}
use ros2_dji_serial_bridge.Base.Bytes.{u8, u64}
use ros2_dji_serial_bridge.Base.Watch.{state_after, said_along}
use ros2_dji_serial_bridge.Protocol.{McbMsgType, PosePayload, RefSysPayload}
use ros2_dji_serial_bridge.Node.State.{Node, Event, Log, emit}
use ros2_dji_serial_bridge.Node.Transmit.{tx_frame, all_written, send_frame}
use ros2_dji_serial_bridge.Node.Start.{Termios, Device, Platform, Parameters, Started, construct}
use ros2_dji_serial_bridge.Node.System.{System, Reach, launched}
use ros2_dji_serial_bridge.Node.Handlers.{
  pose_msg, odom_log, first_pose_log, publish_pose, publish_ref_sys, publish_ping,
}
use ros2_dji_serial_bridge.Node.Callbacks.{previous_pose}
use ros2_dji_serial_bridge.Node.Actions.{IsPlain, View, Action, actions_keep}
use ros2_dji_serial_bridge.Node.System.Watch.{
  Seen, nothing_seen, watch, due, announced, about_odom, seen_in, IsFollowed, Follows,
  IsFollowed-append, quiet-Follows, IsQuiet, line-IsQuiet, other-IsQuiet, quiet-IsFollowed,
}
use ros2_dji_serial_bridge.Node.System.Runs.{
  IsPlainEvent, IsFresh, constructed-IsFresh, run-Actions,
}

-- A new pose, with what is logged before it.
pose_events-Follows :
    (seen : Seen) (count : ℕ) (raw : PosePayload) (stamp : ℤ)
    → Follows seen
        (odom_log seen.status raw.odom_status
          ++ (first_pose_log count raw ++ (Event.published_pose (pose_msg stamp raw) ∷ [])))
        (record { pose = some (raw.x, raw.y); status = raw.odom_status })
unfolding odom_log first_pose_log pose_msg watch due announced state_after said_along
pose_events-Follows seen count raw stamp = ground arith

publish_pose-IsFollowed :
    (raw : PosePayload) (stamp : ℤ) (n : Node)
    → IsFollowed n
    → IsFollowed (publish_pose raw stamp n)
unfolding publish_pose
publish_pose-IsFollowed raw stamp n h = IsFollowed-append n (publish_pose raw stamp n) _ h refl (
    subst
      (λ status.
        Follows (seen_in n.events)
          (odom_log status raw.odom_status
            ++ (first_pose_log (u64 (n.pose_msgs_pub + 1)) raw
                ++ (Event.published_pose (pose_msg stamp raw) ∷ [])))
          (record { pose = some (raw.x, raw.y); status = raw.odom_status }))
      (sym h.status) (pose_events-Follows (seen_in n.events) (u64 (n.pose_msgs_pub + 1)) raw stamp))

relocalized-IsQuiet :
    (count x y : ℕ) (pose : Option (ℕ × ℕ))
    → IsQuiet (Event.logged (Log.relocalized count pose x y))
unfolding watch due announced about_odom
relocalized-IsQuiet count x y pose = record {
  stays = λ seen. refl;
  announced_none = λ seen. refl;
  due_none = λ seen. refl;
}

relocalized-IsFollowed :
    (count x y : ℕ) (n : Node)
    → IsFollowed n
    → IsFollowed (emit (Event.logged (Log.relocalized count (previous_pose n) x y) ∷ []) n)
unfolding emit
relocalized-IsFollowed count x y n h =
    quiet-IsFollowed n _ (Event.logged (Log.relocalized count (previous_pose n) x y) ∷ [])
      (relocalized-IsQuiet count x y (previous_pose n), tt) refl refl refl h

emit_line-IsFollowed :
    (line : Log) (n : Node)
    → IsPlain line
    → IsFollowed n
    → IsFollowed (emit (Event.logged line ∷ []) n)
unfolding emit
emit_line-IsFollowed line n plain h =
    quiet-IsFollowed n (emit (Event.logged line ∷ []) n) (Event.logged line ∷ [])
      (line-IsQuiet line plain, tt) refl refl refl h

-- A plain line or none, before one quiet event.
said_first-IsQuiet :
    (b : Bool) (line : Log) (e : Event)
    → IsPlain line
    → IsQuiet e
    → All IsQuiet ((if b then Event.logged line ∷ [] else []) ++ (e ∷ []))
said_first-IsQuiet true line e plain q = (line-IsQuiet line plain, (q, tt))
said_first-IsQuiet false line e plain q = (q, tt)

publish_ref_sys-IsFollowed :
    (raw : RefSysPayload) (stamp : ℤ) (n : Node)
    → IsFollowed n
    → IsFollowed (publish_ref_sys raw stamp n)
unfolding publish_ref_sys
publish_ref_sys-IsFollowed raw stamp n h =
    quiet-IsFollowed n (publish_ref_sys raw stamp n) _
      (said_first-IsQuiet n.debug_log (Log.ref_sys_rx (u64 (n.ref_sys_msgs_pub + 1)) raw) _ tt
        (other-IsQuiet _ tt))
      refl refl refl h

publish_ping-IsFollowed :
    (number : ℕ) (stamp : ℤ) (n : Node) → IsFollowed n → IsFollowed (publish_ping number stamp n)
unfolding publish_ping
publish_ping-IsFollowed number stamp n h =
    quiet-IsFollowed n (publish_ping number stamp n) _
      (said_first-IsQuiet n.debug_log (Log.ping_rx number) _ tt (other-IsQuiet _ tt)) refl refl refl
      h

-- The state of either result of `send_frame`.
tested-IsFollowed :
    (b : Bool) (n t : Node)
    → IsFollowed n
    → IsFollowed t
    → (let result : Node × Bool = if b then (n, true) else (t, false) in IsFollowed result.0)
tested-IsFollowed true n t h k = h
tested-IsFollowed false n t h k = k

send_frame-IsFollowed :
    (write : List ℕ → Option ℕ) (m : McbMsgType) (payload : List ℕ) (n : Node)
    → IsFollowed n
    → IsFollowed (send_frame write m payload n).0
unfolding send_frame emit
send_frame-IsFollowed write m payload n h =
    let frame = tx_frame m n.tx_seq payload in
    let stepped = record n { tx_seq = u8 (n.tx_seq + 1) } in
    let sent =
      quiet-IsFollowed n (emit (Event.wrote frame (write frame) ∷ []) stepped)
        (Event.wrote frame (write frame) ∷ []) (other-IsQuiet _ tt, tt) refl refl refl h in
    let line = Log.short_write m (write frame) (length frame) in
    tested-IsFollowed (all_written (write frame) (length frame)) _ _ sent
      (emit_line-IsFollowed line _ tt sent)

-- Each action keeps up with the observer.
pub Action-IsFollowed : (n t : Node) → Action n t → IsFollowed n → IsFollowed t
Action-IsFollowed n t (Action.counts u same) h =
    quiet-IsFollowed n u [] tt (ap (λ (v : View). v.events) same ∙ sym (append-nil n.events))
      (ap (λ (v : View). v.previous) same) (ap (λ (v : View). v.last_odom_status) same) h
Action-IsFollowed n t (Action.says line plain) h = emit_line-IsFollowed line n plain h
Action-IsFollowed n t (Action.relocalizes count x y) h = relocalized-IsFollowed count x y n h
Action-IsFollowed n t (Action.poses raw stamp fits) h = publish_pose-IsFollowed raw stamp n h
Action-IsFollowed n t (Action.ref_syses raw stamp fits) h = publish_ref_sys-IsFollowed raw stamp n h
Action-IsFollowed n t (Action.pings number stamp fits) h = publish_ping-IsFollowed number stamp n h
Action-IsFollowed n t (Action.sends write m payload short bytes) h =
    send_frame-IsFollowed write m payload n h

plain-AllQuiet : (es : List Event) → All IsPlainEvent es → All IsQuiet es
plain-AllQuiet [] h = tt
plain-AllQuiet (Event.logged line ∷ es) h = (line-IsQuiet line h.0, plain-AllQuiet es h.1)
plain-AllQuiet (Event.published_pose m ∷ es) h = absurd h.0
plain-AllQuiet (Event.published_ref_sys m ∷ es) h = absurd h.0
plain-AllQuiet (Event.published_ping m ∷ es) h = absurd h.0
plain-AllQuiet (Event.wrote frame result ∷ es) h = absurd h.0

fresh-IsFollowed : (n : Node) → IsFresh n → IsFollowed n
fresh-IsFollowed n f =
    let quiet = quiet-Follows nothing_seen n.events (plain-AllQuiet n.events f.events) in
    record {
      pose = f.previous ∙ sym (ap (λ (s : Seen). s.pose) quiet.leads);
      status = f.status ∙ sym (ap (λ (s : Seen). s.status) quiet.leads);
      odom = quiet.odom;
    }

-- From a constructor that succeeds, through any steps of the read thread, the four callbacks and the
-- timer in any order, a step at a time: the pose that the node remembers between two steps is the one
-- it published last, if any, and so is the odometry status, from 0 on; and the lines about the odometry
-- are exactly those due, one for each published pose whose status differs from the one before, in
-- order.
pub Reach-IsFollowed :
    (make_raw : Termios → Termios) (sys : Platform) (p : Parameters)
    → (poll_ms : ℕ) (to_float : ℕ → ℕ) (tty : Device) (period : ℤ) (n : Node) (s : System)
    → construct make_raw sys p ≡ Started.ready tty period n
    → Reach poll_ms to_float (launched n) s
    → IsFollowed s.rx.node
Reach-IsFollowed make_raw sys p poll_ms to_float tty period n s e r =
    actions_keep IsFollowed Action-IsFollowed
      (run-Actions make_raw sys p poll_ms to_float tty period n s e r)
      (fresh-IsFollowed n (constructed-IsFresh make_raw sys p e))
