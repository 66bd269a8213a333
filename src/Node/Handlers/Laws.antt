-- ===== src/Node/Handlers/Laws.antt =====
-- What the handlers publish, cache and log on every branch.
use ros2_dji_serial_bridge.Base.{
  ◌*◌, ◌&&◌, ℕ, ◌+◌, ◌/◌, ◌%◌, ◌<◌, bit_and, ◌≡◌, refl, ap, arith, Bool, true, false, List, [], ◌∷◌,
  ◌++◌, Option, none, some, length, ◌==◌, if◌then◌else◌,
}
use ros2_dji_serial_bridge.Base.Int.{ℤ}
use ros2_dji_serial_bridge.Base.Bits.{and_one}
use ros2_dji_serial_bridge.Base.Bytes.{byte_at}
use ros2_dji_serial_bridge.Protocol.{RefSysPayload}
use ros2_dji_serial_bridge.Node.State.{Node, Event, emit}
use ros2_dji_serial_bridge.Node.Handlers.{
  odom_log, first_pose_log, publish_pose, handle_pose, ref_sys_msg, handle_ref_sys, handle_ping,
  dispatch_incoming,
}
use ros2_dji_serial_bridge.Node.Handlers.Tables.{
  pose_of, ref_sys_of, pose_msg-pose_of, ref_sys_msg-ref_sys_of,
}

-- The messages among the events, in order.
abbrev pub publications : List Event → List Event
publications [] = []
publications (Event.published_pose m ∷ es) = Event.published_pose m ∷ publications es
publications (Event.published_ref_sys m ∷ es) = Event.published_ref_sys m ∷ publications es
publications (Event.published_ping m ∷ es) = Event.published_ping m ∷ publications es
publications (Event.logged l ∷ es) = publications es
publications (Event.wrote f r ∷ es) = publications es

pub publications-append :
    (xs ys : List Event) → publications (xs ++ ys) ≡ publications xs ++ publications ys
publications-append [] ys = refl
publications-append (Event.published_pose m ∷ xs) ys =
    ap (◌∷◌ (Event.published_pose m)) (publications-append xs ys)
publications-append (Event.published_ref_sys m ∷ xs) ys =
    ap (◌∷◌ (Event.published_ref_sys m)) (publications-append xs ys)
publications-append (Event.published_ping m ∷ xs) ys =
    ap (◌∷◌ (Event.published_ping m)) (publications-append xs ys)
publications-append (Event.logged l ∷ xs) ys = publications-append xs ys
publications-append (Event.wrote f r ∷ xs) ys = publications-append xs ys

-- The message that a frame of a type and payload stands for, `none` where the type is not inbound or
-- the length is not the type's.
unfoldable pub message_of : (msg_type : ℕ) → List ℕ → ℤ → Option Event
message_of msg_type payload stamp =
    if msg_type == 2 && length payload == 25
    then some (Event.published_pose (pose_of payload stamp))
    else if msg_type == 3 && length payload == 11
    then some (Event.published_ref_sys (ref_sys_of payload stamp))
    else if msg_type == 5 && length payload == 1
    then some (Event.published_ping (record { stamp = stamp; number = byte_at payload 0 }))
    else none

abbrev pub as_list : Option Event → List Event
as_list none = []
as_list (some e) = e ∷ []

-- Dispatch publishes the message that the frame stands for by the tables of UART_PROTOCOL.md, each
-- field from its offset and each flag from its bit, and nothing else; a frame of another type or of a
-- length that is not the type's publishes nothing.
pub dispatch-publishes :
    (msg_type : ℕ) (payload : List ℕ) (stamp : ℤ) (n : Node)
    → publications (dispatch_incoming msg_type payload (length payload) stamp n).events
      ≡ publications n.events ++ as_list (message_of msg_type payload stamp)
unfolding dispatch_incoming handle_pose handle_ref_sys handle_ping publish_pose odom_log
    first_pose_log message_of emit
dispatch-publishes msg_type payload stamp n = grind (
  arith,
  publications-append,
  pose_msg-pose_of payload stamp,
  ref_sys_msg-ref_sys_of payload stamp,
)

unfoldable pub digit : Bool → ℕ
digit b = if b then 1 else 0

digit_test : (b : Bool) → (digit b == 1) ≡ b
unfolding digit
digit_test true = refl
digit_test false = refl

digit-lt : (b : Bool) → digit b < 2
unfolding digit
digit-lt b = ground arith

-- The flags byte of the wire table, from its eight flags.
abbrev pub pack_flags : (b7 b6 b5 b4 b3 b2 b1 b0 : Bool) → ℕ
pack_flags b7 b6 b5 b4 b3 b2 b1 b0 =
    digit b7 * 128
    + digit b6 * 64
    + digit b5 * 32
    + digit b4 * 16
    + digit b3 * 8
    + digit b2 * 4
    + digit b1 * 2
    + digit b0

-- A tested bit, from the quotient whose lowest digit it is.
test_bit : (q : ℕ) (b : Bool) → q % 2 ≡ digit b → (bit_and q 1 == 1) ≡ b
test_bit q b h = rw (and_one q, h) (digit_test b)

ruleset digits = (arith, digit-lt)

-- A referee frame that carries eight flags is published with those flags, each under its own name,
-- and with the other fields as they are.
pub ref_sys_msg-pack_flags :
    (stamp : ℤ) (raw : RefSysPayload) (b7 b6 b5 b4 b3 b2 b1 b0 : Bool)
    → raw.booleans ≡ pack_flags b7 b6 b5 b4 b3 b2 b1 b0
    → ref_sys_msg stamp raw ≡ record {
      stamp = stamp;
      game_stage = raw.game_stage;
      stage_time_remaining = raw.stage_time_remaining;
      robot_hp = raw.robot_hp;
      robot_id = raw.robot_id;
      delta_angle_got_hit_in = raw.delta_angle_got_hit_in;
      is_on_blue_team = b7;
      is_healing = b6;
      is_in_reload_zone = b5;
      is_in_center_zone = b4;
      team_occupies_center = b3;
      opponent_occupies_center = b2;
      chassis_has_power = b1;
      gimbal_has_power = b0;
    }
unfolding ref_sys_msg
ref_sys_msg-pack_flags stamp raw b7 b6 b5 b4 b3 b2 b1 b0 h =
    let b = raw.booleans in
    let f7 = test_bit (b / 128) b7 (omega digits) in
    let f6 = test_bit (b / 64) b6 (omega digits) in
    let f5 = test_bit (b / 32) b5 (omega digits) in
    let f4 = test_bit (b / 16) b4 (omega digits) in
    let f3 = test_bit (b / 8) b3 (omega digits) in
    let f2 = test_bit (b / 4) b2 (omega digits) in
    let f1 = test_bit (b / 2) b1 (omega digits) in
    let f0 = test_bit (b / 1) b0 (omega digits) in
    λ i. record {
      stamp = stamp;
      game_stage = raw.game_stage;
      stage_time_remaining = raw.stage_time_remaining;
      robot_hp = raw.robot_hp;
      robot_id = raw.robot_id;
      delta_angle_got_hit_in = raw.delta_angle_got_hit_in;
      is_on_blue_team = f7 i;
      is_healing = f6 i;
      is_in_reload_zone = f5 i;
      is_in_center_zone = f4 i;
      team_occupies_center = f3 i;
      opponent_occupies_center = f2 i;
      chassis_has_power = f1 i;
      gimbal_has_power = f0 i;
    }
