-- ===== src/Node/Recall/Coarse.antt =====
-- A run in which each callback and each turn of the read thread is one step is a run of the finer
-- steps too: the lines that it logs on relocalisations are theirs.
use ros2_dji_serial_bridge.Base.{
  ℕ, ◌+◌, ◌≡◌, refl, sym, ap, ap₂, ◌∙◌, arith, Bool, true, false, List, [], ◌∷◌, ◌++◌, All, Option,
  length, append-nil, if◌then◌else◌,
}
use ros2_dji_serial_bridge.Base.Int.{ℤ}
use ros2_dji_serial_bridge.Base.Bytes.{u8}
use ros2_dji_serial_bridge.Node.Transmit.{send_frame, tx_frame, all_written}
use ros2_dji_serial_bridge.Node.Actions.{IsPlain, View, Action, actions_keep}
use ros2_dji_serial_bridge.Protocol.{RefSysPayload, McbMsgType}
use ros2_dji_serial_bridge.Node.State.{Node, Event, Log, emit}
use ros2_dji_serial_bridge.Node.Handlers.{publish_ref_sys, publish_ping}
use ros2_dji_serial_bridge.Node.Recall.{Shared, before_poses, Reach as FineReach}
use ros2_dji_serial_bridge.Node.Start.{Termios, Device, Platform, Parameters, Started, construct}
use ros2_dji_serial_bridge.Node.System.{System, Reach, launched}
use ros2_dji_serial_bridge.Node.System.Runs.{
  IsPlainEvent, IsFresh, constructed-IsFresh, run-Actions,
}
use ros2_dji_serial_bridge.Node.Recall.Abstract.{
  recall_of, recall_lines, Abstracts, Refined, silent-Refined,
}
use ros2_dji_serial_bridge.Node.Recall.Simulate.{poses-Refined, relocalizes-Refined}

line_silent : (line : Log) → IsPlain line → recall_lines (Event.logged line ∷ []) ≡ []
unfolding recall_lines recall_of
line_silent (Log.relocalized count previous x y) h = absurd h
line_silent _ h = refl

says-Refined :
    (line : Log) (n : Node) → IsPlain line → Refined n → Refined (emit (Event.logged line ∷ []) n)
unfolding emit
says-Refined line n plain =
    silent-Refined n (emit (Event.logged line ∷ []) n) _ (line_silent line plain) refl refl

publish_ref_sys-Refined :
    (raw : RefSysPayload) (stamp : ℤ) (n : Node) → Refined n → Refined (publish_ref_sys raw stamp n)
unfolding publish_ref_sys recall_lines recall_of
publish_ref_sys-Refined raw stamp n =
    silent-Refined n (publish_ref_sys raw stamp n) _ (ground arith) refl refl

publish_ping-Refined :
    (number : ℕ) (stamp : ℤ) (n : Node) → Refined n → Refined (publish_ping number stamp n)
unfolding publish_ping recall_lines recall_of
publish_ping-Refined number stamp n =
    silent-Refined n (publish_ping number stamp n) _ (ground arith) refl refl

-- The state of either result of `send_frame`.
tested-Refined :
    (b : Bool) (n t : Node)
    → Refined n
    → Refined t
    → (let result : Node × Bool = if b then (n, true) else (t, false) in Refined result.0)
tested-Refined true n t h k = h
tested-Refined false n t h k = k

send_frame-Refined :
    (write : List ℕ → Option ℕ) (m : McbMsgType) (payload : List ℕ) (n : Node)
    → Refined n
    → Refined (send_frame write m payload n).0
unfolding send_frame emit recall_lines recall_of
send_frame-Refined write m payload n h =
    let frame = tx_frame m n.tx_seq payload in
    let stepped = record n { tx_seq = u8 (n.tx_seq + 1) } in
    let sent =
      silent-Refined n (emit (Event.wrote frame (write frame) ∷ []) stepped)
        (Event.wrote frame (write frame) ∷ []) refl refl refl h in
    tested-Refined (all_written (write frame) (length frame)) _ _ sent
      (says-Refined (Log.short_write m (write frame) (length frame)) _ tt sent)

Action-Refined : (n t : Node) → Action n t → Refined n → Refined t
unfolding recall_lines
Action-Refined n t (Action.counts u same) =
    silent-Refined n u [] refl (ap (λ (v : View). v.events) same ∙ sym (append-nil n.events))
      (ap (λ (v : View). v.previous) same)
Action-Refined n t (Action.says line plain) = says-Refined line n plain
Action-Refined n t (Action.relocalizes count x y) = relocalizes-Refined count x y n
Action-Refined n t (Action.poses raw stamp fits) = poses-Refined raw stamp n
Action-Refined n t (Action.ref_syses raw stamp fits) = publish_ref_sys-Refined raw stamp n
Action-Refined n t (Action.pings number stamp fits) = publish_ping-Refined number stamp n
Action-Refined n t (Action.sends write m payload short bytes) = send_frame-Refined write m payload n

fresh_lines : (es : List Event) → All IsPlainEvent es → recall_lines es ≡ []
unfolding recall_lines
fresh_lines [] h = refl
fresh_lines (Event.logged line ∷ es) h =
    ap₂ ◌++◌ (sym (append-nil (recall_of (Event.logged line))) ∙ line_silent line h.0)
      (fresh_lines es h.1)
fresh_lines (Event.published_pose m ∷ es) h = absurd h.0
fresh_lines (Event.published_ref_sys m ∷ es) h = absurd h.0
fresh_lines (Event.published_ping m ∷ es) h = absurd h.0
fresh_lines (Event.wrote frame result ∷ es) h = absurd h.0

fresh-Refined : (n : Node) → IsFresh n → Refined n
fresh-Refined n h = (
  before_poses,
  FineReach.start,
  record {
    reads = refl;
    logs = refl;
    seen_x = omega arith;
    seen_y = omega arith;
    seen_have = omega arith;
    pose = h.previous;
    said = sym (fresh_lines n.events h.events);
  },
)

-- From a constructor that succeeds, through any steps of the read thread, the four callbacks and the
-- timer in any order, each a single step: there is an interleaving of the single stores and loads, with
-- each load the newest, that logs the same lines on relocalisations in the same order, and at whose end
-- the last stored values are what the node remembers of the poses.
pub Reach-Refined :
    (make_raw : Termios → Termios) (sys : Platform) (p : Parameters)
    → (poll_ms : ℕ) (to_float : ℕ → ℕ) (tty : Device) (period : ℤ) (n : Node) (s : System)
    → construct make_raw sys p ≡ Started.ready tty period n
    → Reach poll_ms to_float (launched n) s
    → (f : Shared) × FineReach true f × Abstracts s.rx.node f
Reach-Refined make_raw sys p poll_ms to_float tty period n s e r =
    actions_keep Refined Action-Refined
      (run-Actions make_raw sys p poll_ms to_float tty period n s e r)
      (fresh-Refined n (constructed-IsFresh make_raw sys p e))
