-- ===== src/Node/Recall/Steps.antt =====
-- The steps of the two threads keep what the lines on relocalisations recall.
use ros2_dji_serial_bridge.Base.{ℕ, arith, Bool}
use ros2_dji_serial_bridge.Node.Recall.{LogPc, Shared, Step, Reach}
use ros2_dji_serial_bridge.Node.Recall.Stores.{
  before-IsStored, storing_x-IsStored, storing_y-IsStored, storing_have-IsStored,
}
use ros2_dji_serial_bridge.Node.Recall.Lines.{Along, least_of, Holds}
use ros2_dji_serial_bridge.Node.Recall.Writer.{
  flag_seen, storing_x-Holds, storing_y-Holds, storing_have-Holds,
}
use ros2_dji_serial_bridge.Node.Recall.Reader.{
  known, load_x-Holds, load_y-Holds, then_y-Holds, then_x-Holds,
}

-- The invariant, for the numbers of the poses recalled last.
abbrev Held : Bool → Shared → Type 0
Held newest s = (i : ℕ) × (j : ℕ) × Holds newest s i j

Step-Held : (newest : Bool) (s t : Shared) → Step newest s t → Held newest s → Held newest t
Step-Held newest s _ (Step.store_x raw at) (i, j, h) =
    (i, j, storing_x-Holds newest raw s i j (storing_x-IsStored raw s at h.stored) h)
Step-Held newest s _ (Step.store_y raw at) (i, j, h) =
    (i, j, storing_y-Holds newest raw s i j (storing_y-IsStored raw s at h.stored) h)
Step-Held newest s _ (Step.store_have raw at) (i, j, h) =
    (i, j, storing_have-Holds newest s i j (storing_have-IsStored raw s at h.stored) h)
Step-Held newest s _ (Step.sent count x y at) (i, j, h) = (
  i,
  j,
  record {
    stored = h.stored;
    said = h.said;
    behind_x = h.behind_x;
    behind_y = h.behind_y;
    knows = tt;
  },
)
Step-Held newest s _ (Step.load_none count x y k at l v) (i, j, h) = (
  i,
  j,
  record {
    stored = h.stored;
    said = Along.unknown count x y h.said;
    behind_x = h.behind_x;
    behind_y = h.behind_y;
    knows = tt;
  },
)
Step-Held newest s _ (Step.load_have count x y k at l v) (i, j, h) = (
  i,
  j,
  record {
    stored = h.stored;
    said = h.said;
    behind_x = h.behind_x;
    behind_y = h.behind_y;
    knows = flag_seen newest s k h.stored l v;
  },
)
Step-Held newest s _ (Step.load_x count x y k at l) (i, j, h) = (
  i,
  j,
  load_x-Holds newest s i j k count x y (known newest s i j (LogPc.recalls count x y) h at) l h,
)
Step-Held newest s _ (Step.load_y count x y k at l) (i, j, h) = (
  i,
  j,
  load_y-Holds newest s i j k count x y (known newest s i j (LogPc.recalls count x y) h at) l h,
)
Step-Held newest s _ (Step.then_y count x y px k at l) (i, j, h) = (
  s.last_pose_x.seen,
  k,
  then_y-Holds newest s i j k count x y px (known newest s i j (LogPc.has_x count x y px) h at) l h,
)
Step-Held newest s _ (Step.then_x count x y py k at l) (i, j, h) = (
  k,
  s.last_pose_y.seen,
  then_x-Holds newest s i j k count x y py (known newest s i j (LogPc.has_y count x y py) h at) l h,
)

Reach-Held : (newest : Bool) (s : Shared) → Reach newest s → Held newest s
Reach-Held newest _ Reach.start = (
  0,
  0,
  record {
    stored = before-IsStored;
    said = Along.silent;
    behind_x = omega arith;
    behind_y = omega arith;
    knows = tt;
  },
)
Reach-Held newest t (Reach.later {s = s} r step) = Step-Held newest s t step (Reach-Held newest s r)

-- However the stores of the read thread and the loads of the executor thread interleave, relaxed or
-- with each load the newest: a line on a relocalisation that recalls a pose prints the `x` of one pose
-- received and the `y` of one, or the first value 0 that stands before all of them where the loads are
-- relaxed; some pose has come before it; and of two such lines the later one does not recall an older
-- `x` nor an older `y`.
pub Reach-Along :
    (newest : Bool) (s : Shared)
    → Reach newest s
    → (i : ℕ) × (j : ℕ) × Along (least_of newest) s.received i j s.said
Reach-Along newest s r = let (i, j, h) = Reach-Held newest s r in (i, j, h.said)
