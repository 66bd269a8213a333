-- ===== src/Node/Actions.antt =====
-- The node's operations as sequences of a few actions. An invariant of the node that each action keeps
-- is kept by every operation.
pub mod Inbound
pub mod Outbound
use ros2_dji_serial_bridge.Base.{ℕ, ◌≤◌, ◌≡◌, List, [], ◌∷◌, Option, length}
use ros2_dji_serial_bridge.Base.Int.{ℤ}
use ros2_dji_serial_bridge.Base.Bytes.{IsByte, AreBytes}
use ros2_dji_serial_bridge.Protocol.{McbMsgType, PosePayload, RefSysPayload}
use ros2_dji_serial_bridge.Protocol.RoundTrip.{FitsPose, FitsRefSys}
use ros2_dji_serial_bridge.Node.State.{Node, Event, Log, emit}
use ros2_dji_serial_bridge.Node.Handlers.{publish_pose, publish_ref_sys, publish_ping}
use ros2_dji_serial_bridge.Node.Transmit.{send_frame}
use ros2_dji_serial_bridge.Node.Callbacks.{previous_pose}

-- Lines that are not about the odometry or a relocalisation.
abbrev pub IsPlain : Log → Type 0
IsPlain (Log.odom_back previous name) = ⊥
IsPlain (Log.odom_no_source status name) = ⊥
IsPlain (Log.odom_degraded status name) = ⊥
IsPlain (Log.relocalized count previous x y) = ⊥
IsPlain _ = Unit {0}

-- The state less its counters.
pub record View : Type 0 where
  pub events : List Event
  pub tx_seq : ℕ
  pub previous : Option (ℕ × ℕ)
  pub last_odom_status : ℕ
  pub byte_wire_ns : ℕ

abbrev pub view : Node → View
view n = record {
  events = n.events;
  tx_seq = n.tx_seq;
  previous = previous_pose n;
  last_odom_status = n.last_odom_status;
  byte_wire_ns = n.byte_wire_ns;
}

-- The actions of both threads.
pub data Action (n : Node) : Node → Type 0 where
  counts : (t : Node) → view t ≡ view n → Action n t
  says : (line : Log) → IsPlain line → Action n (emit (Event.logged line ∷ []) n)
  relocalizes :
      (count x y : ℕ)
      → Action n (emit (Event.logged (Log.relocalized count (previous_pose n) x y) ∷ []) n)
  poses : (raw : PosePayload) (stamp : ℤ) → FitsPose raw → Action n (publish_pose raw stamp n)
  ref_syses :
      (raw : RefSysPayload) (stamp : ℤ) → FitsRefSys raw → Action n (publish_ref_sys raw stamp n)
  pings : (number : ℕ) (stamp : ℤ) → IsByte number → Action n (publish_ping number stamp n)
  sends :
      (write : List ℕ → Option ℕ) (m : McbMsgType) (payload : List ℕ)
      → length payload ≤ 15
      → AreBytes payload
      → Action n (send_frame write m payload n).0

pub data Actions (n : Node) : Node → Type 0 where
  none_left : Actions n n
  further : {t u : Node} → Actions n t → Action t u → Actions n u

pub one : {n t : Node} → Action n t → Actions n t
one a = further none_left a

pub join : {n t u : Node} → Actions n t → Actions t u → Actions n u
join first none_left = first
join first (further more a) = further (join first more) a

-- What each action keeps, all keep.
pub actions_keep {κ} :
    (P : Node → Type κ)
    → ((n t : Node) → Action n t → P n → P t)
    → {n t : Node} → Actions n t
    → P n
    → P t
actions_keep P keep none_left h = h
actions_keep P keep (further {t} {u} more a) h = keep t u a (actions_keep P keep more h)
