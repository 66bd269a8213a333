-- ===== src/Node/Recall/Writer.antt =====
-- The read thread's stores keep what the lines on relocalisations recall.
use ros2_dji_serial_bridge.Base.{
  ℕ, zero, suc, ◌≤◌, ◌<◌, ◌≡◌, sym, ◌∙◌, arith, Bool, true, List, [], ◌∷◌, ◌++◌, length,
  length-append,
}
use ros2_dji_serial_bridge.Protocol.{PosePayload}
use ros2_dji_serial_bridge.Node.Recall.{
  value, Loads, LogPc, Shared, storing_x, storing_y, storing_have,
}
use ros2_dji_serial_bridge.Node.Recall.Stores.{stores, IsStored, stored_order}
use ros2_dji_serial_bridge.Node.Recall.Lines.{
  PcTrue, least_of, Holds, x_at-append, y_at-append, Along-append,
}

-- The flag is only seen when some pose has been stored.
pub flag_seen :
    (newest : Bool) (s : Shared) (i : ℕ)
    → IsStored (stores s)
    → Loads newest s.have_pose i
    → value s.have_pose i ≡ true
    → 0 < length s.have_pose.stored
flag_seen newest s zero h l e = absurd (cc (h.first_have, e))
flag_seen newest s (suc i) h l e = omega (arith, l.present)

PcTrue-store_x :
    (least : ℕ) (poses : List PosePayload) (raw : PosePayload) (haves seen_x seen_y : ℕ)
    (pc : LogPc)
    → seen_x ≤ length poses
    → seen_y ≤ length poses
    → PcTrue least poses haves seen_x seen_y pc
    → PcTrue least (poses ++ (raw ∷ [])) haves seen_x seen_y pc
PcTrue-store_x least poses raw haves seen_x seen_y LogPc.elsewhere hx hy h = tt
PcTrue-store_x least poses raw haves seen_x seen_y (LogPc.asks count x y) hx hy h = tt
PcTrue-store_x least poses raw haves seen_x seen_y (LogPc.recalls count x y) hx hy h = h
PcTrue-store_x least poses raw haves seen_x seen_y (LogPc.has_x count x y px) hx hy h =
    (h.0, h.1 ∙ sym (x_at-append poses (raw ∷ []) seen_x hx), h.2)
PcTrue-store_x least poses raw haves seen_x seen_y (LogPc.has_y count x y py) hx hy h =
    (h.0, h.1 ∙ sym (y_at-append poses (raw ∷ []) seen_y hy), h.2)

PcTrue-store_have :
    (least : ℕ) (poses : List PosePayload) (haves more seen_x seen_y : ℕ) (pc : LogPc)
    → haves ≤ more
    → PcTrue least poses haves seen_x seen_y pc
    → PcTrue least poses more seen_x seen_y pc
PcTrue-store_have least poses haves more seen_x seen_y LogPc.elsewhere le h = tt
PcTrue-store_have least poses haves more seen_x seen_y (LogPc.asks count x y) le h = tt
PcTrue-store_have least poses haves more seen_x seen_y (LogPc.recalls count x y) le h = omega arith
PcTrue-store_have least poses haves more seen_x seen_y (LogPc.has_x count x y px) le h =
    (omega (arith, h.0), h.1, h.2)
PcTrue-store_have least poses haves more seen_x seen_y (LogPc.has_y count x y py) le h =
    (omega (arith, h.0), h.1, h.2)

-- The read thread's steps.
pub storing_x-Holds :
    (newest : Bool) (raw : PosePayload) (s : Shared) (i j : ℕ)
    → IsStored (stores (storing_x raw s))
    → Holds newest s i j
    → Holds newest (storing_x raw s) i j
storing_x-Holds newest raw s i j kept h =
    let order = stored_order (stores s) h.stored in
    record {
      stored = kept;
      said = Along-append raw h.said;
      behind_x = omega (arith, h.behind_x, length-append s.last_pose_x.stored (raw.x ∷ []));
      behind_y = h.behind_y;
      knows =
          PcTrue-store_x (least_of newest) s.received raw (length s.have_pose.stored)
            s.last_pose_x.seen s.last_pose_y.seen s.log_pc (omega (arith, h.behind_x, order))
            (omega (arith, h.behind_y, order)) h.knows;
    }

pub storing_y-Holds :
    (newest : Bool) (raw : PosePayload) (s : Shared) (i j : ℕ)
    → IsStored (stores (storing_y raw s))
    → Holds newest s i j
    → Holds newest (storing_y raw s) i j
storing_y-Holds newest raw s i j kept h = record {
  stored = kept;
  said = h.said;
  behind_x = h.behind_x;
  behind_y = omega (arith, h.behind_y, length-append s.last_pose_y.stored (raw.y ∷ []));
  knows = h.knows;
}

pub storing_have-Holds :
    (newest : Bool) (s : Shared) (i j : ℕ)
    → IsStored (stores (storing_have s))
    → Holds newest s i j
    → Holds newest (storing_have s) i j
storing_have-Holds newest s i j kept h = record {
  stored = kept;
  said = h.said;
  behind_x = h.behind_x;
  behind_y = h.behind_y;
  knows =
      PcTrue-store_have (least_of newest) s.received (length s.have_pose.stored)
        (length (s.have_pose.stored ++ (true ∷ []))) s.last_pose_x.seen s.last_pose_y.seen s.log_pc
        (omega (arith, length-append s.have_pose.stored (true ∷ []))) h.knows;
}
