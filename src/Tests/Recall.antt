-- ===== src/Tests/Recall.antt =====
-- A relocalisation that is logged while a pose is being stored.
use ros2_dji_serial_bridge.Base.{ℕ, ◌≡◌, refl, arith, Bool, true, false, [], ◌∷◌, some}
use ros2_dji_serial_bridge.Protocol.{PosePayload}
use ros2_dji_serial_bridge.Node.State.{Log}
use ros2_dji_serial_bridge.Node.Recall.{
  see, LogPc, Shared, Step, Reach, storing_x, storing_y, storing_have, before_poses,
  log_relocalized,
}
use ros2_dji_serial_bridge.Node.Recall.Lines.{Along, least_of}
use ros2_dji_serial_bridge.Node.Recall.Steps.{Reach-Along}

abbrev pose_at : (x y : ℕ) → PosePayload
pose_at x y = record {
  x = x;
  y = y;
  vel_x = 0;
  vel_y = 0;
  head_pitch = 0;
  head_yaw = 0;
  odom_status = 0;
}

-- The first pose is stored, and a relocalisation to (5, 6) finds it.
abbrev stored_one : Shared
stored_one = storing_have (storing_y (pose_at 1 2) (storing_x (pose_at 1 2) before_poses))

stored_one_run : (newest : Bool) → Reach newest stored_one
stored_one_run newest =
    Reach.later
      (Reach.later (Reach.later Reach.start (Step.store_x (pose_at 1 2) refl))
        (Step.store_y (pose_at 1 2) refl))
      (Step.store_have (pose_at 1 2) refl)

abbrev found_one : Shared
found_one = record stored_one {
  have_pose = see 1 stored_one.have_pose;
  log_pc = LogPc.recalls 1 5 6;
}

found_one_run : (newest : Bool) → Reach newest found_one
found_one_run newest = Reach.later (Reach.later (stored_one_run newest) (Step.sent 1 5 6 refl)) (
    Step.load_have 1 5 6 1 refl
      (record { forward = omega arith; present = omega arith; last = λ e. refl }) refl)

-- Between the loads the next pose stores its `x`.
abbrev torn : Shared
torn =
    let next = storing_x (pose_at 3 4) found_one in
    let loaded : Shared = record next {
      last_pose_x = see 2 next.last_pose_x;
      log_pc = LogPc.has_x 1 5 6 3;
    } in
    log_relocalized 1 5 6 (some (3, 2)) (record loaded { last_pose_y = see 1 loaded.last_pose_y })

torn_run : Reach true torn
torn_run =
    Reach.later
      (Reach.later (Reach.later (found_one_run true) (Step.store_x (pose_at 3 4) refl)) (
        Step.load_x 1 5 6 2 refl
          (record { forward = omega arith; present = omega arith; last = λ e. refl })))
      (Step.then_y 1 5 6 3 1 refl
        (record { forward = omega arith; present = omega arith; last = λ e. refl }))

-- The line mixes two poses.
torn_line : torn.said ≡ Log.relocalized 1 (some (3, 2)) 5 6 ∷ []
torn_line = refl

-- Relaxed loads may still give the first values.
abbrev stale : Shared
stale =
    let loaded : Shared = record found_one { log_pc = LogPc.has_x 1 5 6 0 } in
    log_relocalized 1 5 6 (some (0, 0)) loaded

stale_run : Reach false stale
stale_run =
    Reach.later
      (Reach.later (found_one_run false) (
        Step.load_x 1 5 6 0 refl
          (record { forward = omega arith; present = omega arith; last = λ e. absurd (cc) })))
      (Step.then_y 1 5 6 0 0 refl
        (record { forward = omega arith; present = omega arith; last = λ e. absurd (cc) }))

Reach-Along_example : (i : ℕ) × (j : ℕ) × Along (least_of true) torn.received i j torn.said
Reach-Along_example = Reach-Along true torn torn_run
