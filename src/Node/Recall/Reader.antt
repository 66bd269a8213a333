-- ===== src/Node/Recall/Reader.antt =====
-- The executor thread's loads keep what the lines on relocalisations recall.
use ros2_dji_serial_bridge.Base.{ℕ, ◌≤◌, ◌<◌, ◌≡◌, subst, arith, Bool, [], ◌∷◌, ◌++◌, some, length}
use ros2_dji_serial_bridge.Node.State.{Log}
use ros2_dji_serial_bridge.Node.Recall.{value, see, Loads, LogPc, Shared, log_relocalized}
use ros2_dji_serial_bridge.Node.Recall.Stores.{stores, stored_order}
use ros2_dji_serial_bridge.Node.Recall.Lines.{
  x_at, y_at, Along, PcTrue, least_of, Holds, Loads-least_of, value-x_at, value-y_at,
}

-- A line that recalls a pose.
recalled-Along :
    (newest : Bool) (s : Shared) (i j k l count x y px py : ℕ)
    → Holds newest s i j
    → (i ≤ k) × (k ≤ length s.last_pose_x.stored)
    → (j ≤ l) × (l ≤ length s.last_pose_y.stored)
    → (least_of newest ≤ k) × (least_of newest ≤ l)
    → 0 < length s.have_pose.stored
    → px ≡ x_at s.received k
    → py ≡ y_at s.received l
    → Along
        (least_of newest)
        s.received
        k
        l
        (s.said ++ (Log.relocalized count (some (px, py)) x y ∷ []))
recalled-Along newest s i j k l count x y px py h hk hl least_le flag ex ey =
    let order = stored_order (stores s) h.stored in
    rw (ex, ey)
      (Along.recalled k l count x y h.said (omega (arith, hk, order)) (omega (arith, hl, order))
        least_le (omega (arith, order)))

-- What is known at the place where the thread stands.
pub known :
    (newest : Bool) (s : Shared) (i j : ℕ) (pc : LogPc)
    → Holds newest s i j
    → s.log_pc ≡ pc
    → PcTrue
        (least_of newest)
        s.received
        (length s.have_pose.stored)
        s.last_pose_x.seen
        s.last_pose_y.seen
        pc
known newest s i j pc h at =
    subst
      (PcTrue (least_of newest) s.received (length s.have_pose.stored) s.last_pose_x.seen
        s.last_pose_y.seen)
      at h.knows

pub load_x-Holds :
    (newest : Bool) (s : Shared) (i j k count x y : ℕ)
    → 0 < length s.have_pose.stored
    → Loads newest s.last_pose_x k
    → Holds newest s i j
    → Holds newest
        (record s {
          last_pose_x = see k s.last_pose_x;
          log_pc = LogPc.has_x count x y (value s.last_pose_x k);
        })
        i
        j
load_x-Holds newest s i j k count x y flag l h =
    let order = stored_order (stores s) h.stored in
    record {
      stored = h.stored;
      said = h.said;
      behind_x = omega (arith, h.behind_x, l.forward, l.present);
      behind_y = h.behind_y;
      knows = (
        flag,
        value-x_at s k h.stored,
        Loads-least_of newest s.last_pose_x k l (omega (arith, order, flag)),
      );
    }

pub load_y-Holds :
    (newest : Bool) (s : Shared) (i j k count x y : ℕ)
    → 0 < length s.have_pose.stored
    → Loads newest s.last_pose_y k
    → Holds newest s i j
    → Holds newest
        (record s {
          last_pose_y = see k s.last_pose_y;
          log_pc = LogPc.has_y count x y (value s.last_pose_y k);
        })
        i
        j
load_y-Holds newest s i j k count x y flag l h =
    let order = stored_order (stores s) h.stored in
    record {
      stored = h.stored;
      said = h.said;
      behind_x = h.behind_x;
      behind_y = omega (arith, h.behind_y, l.forward, l.present);
      knows = (
        flag,
        value-y_at s k l.present h.stored,
        Loads-least_of newest s.last_pose_y k l (omega (arith, order, flag)),
      );
    }

pub then_y-Holds :
    (newest : Bool) (s : Shared) (i j k count x y px : ℕ)
    → (0 < length s.have_pose.stored)
      × (px ≡ x_at s.received s.last_pose_x.seen)
      × (least_of newest ≤ s.last_pose_x.seen)
    → Loads newest s.last_pose_y k
    → Holds newest s i j
    → Holds newest
        (log_relocalized count x y
          (some (px, value s.last_pose_y k))
          (record s { last_pose_y = see k s.last_pose_y }))
        s.last_pose_x.seen
        k
then_y-Holds newest s i j k count x y px (flag, ex, least_x) l h =
    let order = stored_order (stores s) h.stored in
    let least_y = Loads-least_of newest s.last_pose_y k l (omega (arith, order, flag)) in
    record {
      stored = h.stored;
      said =
          recalled-Along newest s i j s.last_pose_x.seen k count x y px (value s.last_pose_y k) h
            h.behind_x (omega (arith, h.behind_y, l.forward, l.present)) (least_x, least_y) flag ex
            (value-y_at s k l.present h.stored);
      behind_x = omega (arith, h.behind_x);
      behind_y = omega (arith, l.present);
      knows = tt;
    }

pub then_x-Holds :
    (newest : Bool) (s : Shared) (i j k count x y py : ℕ)
    → (0 < length s.have_pose.stored)
      × (py ≡ y_at s.received s.last_pose_y.seen)
      × (least_of newest ≤ s.last_pose_y.seen)
    → Loads newest s.last_pose_x k
    → Holds newest s i j
    → Holds newest
        (log_relocalized count x y
          (some (value s.last_pose_x k, py))
          (record s { last_pose_x = see k s.last_pose_x }))
        k
        s.last_pose_y.seen
then_x-Holds newest s i j k count x y py (flag, ey, least_y) l h =
    let order = stored_order (stores s) h.stored in
    let least_x = Loads-least_of newest s.last_pose_x k l (omega (arith, order, flag)) in
    record {
      stored = h.stored;
      said =
          recalled-Along newest s i j k s.last_pose_y.seen count x y (value s.last_pose_x k) py h
            (omega (arith, h.behind_x, l.forward, l.present)) h.behind_y (least_x, least_y) flag
            (value-x_at s k h.stored) ey;
      behind_x = omega (arith, l.present);
      behind_y = omega (arith, h.behind_y);
      knows = tt;
    }
