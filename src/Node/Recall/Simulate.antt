-- ===== src/Node/Recall/Simulate.antt =====
-- One step of the coarse model about a pose as the stores and loads that it is made of.
use ros2_dji_serial_bridge.Base.{
  ℕ, ◌+◌, ◌≡◌, refl, sym, ap₂, ◌∙◌, arith, true, false, List, [], ◌∷◌, ◌++◌, Option, none, some,
  length, length-append, Bool-cases, inl, inr,
}
use ros2_dji_serial_bridge.Base.Int.{ℤ}
use ros2_dji_serial_bridge.Base.Bytes.{u64}
use ros2_dji_serial_bridge.Protocol.{PosePayload}
use ros2_dji_serial_bridge.Node.State.{Node, Event, Log, emit}
use ros2_dji_serial_bridge.Node.Callbacks.{previous_pose}
use ros2_dji_serial_bridge.Node.Handlers.{publish_pose, pose_msg, odom_log, first_pose_log}
use ros2_dji_serial_bridge.Node.Recall.{
  Shared, storing_x, storing_y, storing_have, Step as FineStep, Reach as FineReach,
}
use ros2_dji_serial_bridge.Node.Recall.Abstract.{
  newest_of, recall_of, recall_lines, Abstracts, Refined, recall_lines-append, newest_of-store,
  newest-Loads, silent_said,
}

pose_events_silent :
    (before status count : ℕ) (raw : PosePayload) (stamp : ℤ)
    → recall_lines (
        odom_log before status
        ++ (first_pose_log count raw ++ (Event.published_pose (pose_msg stamp raw) ∷ [])))
      ≡ []
unfolding recall_lines recall_of odom_log first_pose_log
pose_events_silent before status count raw stamp = ground arith

-- A pose received, as the three stores.
pub poses-Refined :
    (raw : PosePayload) (stamp : ℤ) (n : Node) → Refined n → Refined (publish_pose raw stamp n)
unfolding publish_pose
poses-Refined raw stamp n (f, r, h) = (
  storing_have (storing_y raw (storing_x raw f)),
  FineReach.later
      (FineReach.later (FineReach.later r (FineStep.store_x raw h.reads))
        (FineStep.store_y raw refl))
      (FineStep.store_have raw refl),
  record {
    reads = refl;
    logs = h.logs;
    seen_x = omega (arith, h.seen_x, length-append f.last_pose_x.stored (raw.x ∷ []));
    seen_y = omega (arith, h.seen_y, length-append f.last_pose_y.stored (raw.y ∷ []));
    seen_have = omega (arith, h.seen_have, length-append f.have_pose.stored (true ∷ []));
    pose = sym (
        rw
          (
            newest_of-store true f.have_pose,
            newest_of-store raw.x f.last_pose_x,
            newest_of-store raw.y f.last_pose_y,
          )
          refl);
    said =
        silent_said n (publish_pose raw stamp n) _ f.said
          (pose_events_silent n.last_odom_status raw.odom_status (u64 (n.pose_msgs_pub + 1)) raw
            stamp)
          refl h.said;
  },
)

-- One more line on a relocalisation.
recall_said :
    (count x y : ℕ) (pose : Option (ℕ × ℕ)) (n : Node) (said : List Log)
    → pose ≡ previous_pose n
    → said ≡ recall_lines n.events
    → said ++ (Log.relocalized count pose x y ∷ [])
      ≡ recall_lines (n.events ++ (Event.logged (Log.relocalized count (previous_pose n) x y) ∷ []))
unfolding recall_lines recall_of
recall_said count x y pose n said same h =
    ap₂ (λ before p. before ++ (Log.relocalized count p x y ∷ [])) h same
    ∙ sym (
        recall_lines-append n.events
          (Event.logged (Log.relocalized count (previous_pose n) x y) ∷ []))

-- What the loads leave, in the order x, y.
recalled-Refined :
    (count x y : ℕ) (n : Node) (f : Shared)
    → FineReach true f
    → Abstracts n f
    → newest_of f.have_pose ≡ true
    → Refined (emit (Event.logged (Log.relocalized count (previous_pose n) x y) ∷ []) n)
unfolding emit
recalled-Refined count x y n f r h have =
    let pose : some (newest_of f.last_pose_x, newest_of f.last_pose_y) ≡ previous_pose n =
      sym (h.pose ∙ rw have refl) in
    let asked = FineReach.later r (FineStep.sent count x y h.logs) in
    let found = FineReach.later asked (
      FineStep.load_have count x y (length f.have_pose.stored) refl
        (newest-Loads f.have_pose h.seen_have) have) in
    let loaded = FineReach.later found (
      FineStep.load_x count x y (length f.last_pose_x.stored) refl
        (newest-Loads f.last_pose_x h.seen_x)) in
    (
      _,
      FineReach.later loaded (
          FineStep.then_y count x y (newest_of f.last_pose_x) (length f.last_pose_y.stored) refl
            (newest-Loads f.last_pose_y h.seen_y)),
      record {
        reads = h.reads;
        logs = refl;
        seen_x = omega arith;
        seen_y = omega arith;
        seen_have = omega arith;
        pose = h.pose;
        said = recall_said count x y _ n f.said pose h.said;
      },
    )

unknown-Refined :
    (count x y : ℕ) (n : Node) (f : Shared)
    → FineReach true f
    → Abstracts n f
    → newest_of f.have_pose ≡ false
    → Refined (emit (Event.logged (Log.relocalized count (previous_pose n) x y) ∷ []) n)
unfolding emit
unknown-Refined count x y n f r h have =
    let pose : none ≡ previous_pose n = sym (h.pose ∙ rw have refl) in
    (
      _,
      FineReach.later (FineReach.later r (FineStep.sent count x y h.logs)) (
          FineStep.load_none count x y (length f.have_pose.stored) refl
            (newest-Loads f.have_pose h.seen_have) have),
      record {
        reads = h.reads;
        logs = refl;
        seen_x = h.seen_x;
        seen_y = h.seen_y;
        seen_have = omega arith;
        pose = h.pose;
        said = recall_said count x y none n f.said pose h.said;
      },
    )

pub relocalizes-Refined :
    (count x y : ℕ) (n : Node)
    → Refined n
    → Refined (emit (Event.logged (Log.relocalized count (previous_pose n) x y) ∷ []) n)
relocalizes-Refined count x y n (f, r, h) = elim (Bool-cases (newest_of f.have_pose)) [
  | inl have ↦ recalled-Refined count x y n f r h have
  | inr lacks ↦ unknown-Refined count x y n f r h lacks
]
