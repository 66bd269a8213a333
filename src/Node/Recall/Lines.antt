-- ===== src/Node/Recall/Lines.antt =====
-- The poses that the lines on relocalisations recall, under any interleaving of the two threads.
use ros2_dji_serial_bridge.Base.{
  ℕ, ◌≤◌, ◌<◌, ◌≡◌, refl, sym, ap, ap₂, ◌∙◌, subst, arith, Bool, true, false, List, [], ◌∷◌, ◌++◌,
  none, some, length, get_or, length-append, length-map, get_or-append_left, map-append,
}
use ros2_dji_serial_bridge.Protocol.{PosePayload}
use ros2_dji_serial_bridge.Node.State.{Log}
use ros2_dji_serial_bridge.Node.Recall.{Cell, value, Loads, LogPc, Shared}
use ros2_dji_serial_bridge.Node.Recall.Stores.{lacks_y, xs_of, ys_of, stores, IsStored}

-- The coordinates of the pose with that number, from 1 on; behind 0 stands the first value, 0.
abbrev pub x_at : List PosePayload → ℕ → ℕ
x_at poses k = get_or (0 ∷ xs_of poses) k 0

abbrev pub y_at : List PosePayload → ℕ → ℕ
y_at poses k = get_or (0 ∷ ys_of poses) k 0

-- Lines of relocalisations that recall `x` of one pose and `y` of one, not before those of the line
-- before, nor before `least`, and some pose had come; the two numbers are those of the last such line.
pub data Along (least : ℕ) (poses : List PosePayload) : ℕ → ℕ → List Log → Type 0 where
  silent : Along least poses 0 0 []
  unknown :
      {i j : ℕ} {lines : List Log} (count x y : ℕ)
      → Along least poses i j lines
      → Along least poses i j (lines ++ (Log.relocalized count none x y ∷ []))
  recalled :
      {i j : ℕ} {lines : List Log} (k l count x y : ℕ)
      → Along least poses i j lines
      → (i ≤ k) × (k ≤ length poses)
      → (j ≤ l) × (l ≤ length poses)
      → (least ≤ k) × (least ≤ l)
      → 0 < length poses
      → Along least poses k l
          (lines ++ (Log.relocalized count (some (x_at poses k, y_at poses l)) x y ∷ []))

-- What the executor thread knows while it recalls.
abbrev pub PcTrue : ℕ → List PosePayload → (haves seen_x seen_y : ℕ) → LogPc → Type 0
PcTrue least poses haves seen_x seen_y LogPc.elsewhere = Unit {0}
PcTrue least poses haves seen_x seen_y (LogPc.asks count x y) = Unit {0}
PcTrue least poses haves seen_x seen_y (LogPc.recalls count x y) = 0 < haves
PcTrue least poses haves seen_x seen_y (LogPc.has_x count x y px) =
    (0 < haves) × (px ≡ x_at poses seen_x) × (least ≤ seen_x)
PcTrue least poses haves seen_x seen_y (LogPc.has_y count x y py) =
    (0 < haves) × (py ≡ y_at poses seen_y) × (least ≤ seen_y)

abbrev pub least_of : Bool → ℕ
least_of true = 1
least_of false = 0

pub record Holds (newest : Bool) (s : Shared) (i j : ℕ) : Type 0 where
  pub stored : IsStored (stores s)
  pub said : Along (least_of newest) s.received i j s.said
  pub behind_x : (i ≤ s.last_pose_x.seen) × (s.last_pose_x.seen ≤ length s.last_pose_x.stored)
  pub behind_y : (j ≤ s.last_pose_y.seen) × (s.last_pose_y.seen ≤ length s.last_pose_y.stored)
  pub knows :
      PcTrue
        (least_of newest)
        s.received
        (length s.have_pose.stored)
        s.last_pose_x.seen
        s.last_pose_y.seen
        s.log_pc

pub x_at-append :
    (poses more : List PosePayload) (k : ℕ)
    → k ≤ length poses
    → x_at (poses ++ more) k ≡ x_at poses k
x_at-append poses more k h =
    ap (λ l. get_or (0 ∷ l) k 0) (map-append (λ p. p.x) poses more)
    ∙ get_or-append_left (0 ∷ xs_of poses) (xs_of more) k 0
        (omega (arith, h, length-map (λ (p : PosePayload). p.x) poses))

pub y_at-append :
    (poses more : List PosePayload) (k : ℕ)
    → k ≤ length poses
    → y_at (poses ++ more) k ≡ y_at poses k
y_at-append poses more k h =
    ap (λ l. get_or (0 ∷ l) k 0) (map-append (λ p. p.y) poses more)
    ∙ get_or-append_left (0 ∷ ys_of poses) (ys_of more) k 0
        (omega (arith, h, length-map (λ (p : PosePayload). p.y) poses))

-- A new pose changes nothing about the lines before.
pub Along-append :
    {least : ℕ} {poses : List PosePayload} {i j : ℕ} {lines : List Log} (raw : PosePayload)
    → Along least poses i j lines
    → Along least (poses ++ (raw ∷ [])) i j lines
Along-append raw Along.silent = Along.silent
Along-append raw (Along.unknown count x y a) = Along.unknown count x y (Along-append raw a)
Along-append {least} {poses} raw
      (Along.recalled {lines = lines} k l count x y a hk hl least_le some_pose) =
    let size = length-append poses (raw ∷ []) in
    subst
      (λ (p : ℕ × ℕ).
        Along least (poses ++ (raw ∷ [])) k l (lines ++ (Log.relocalized count (some p) x y ∷ [])))
      (ap₂ (λ a b. (a, b)) (x_at-append poses (raw ∷ []) k hk.1)
        (y_at-append poses (raw ∷ []) l hl.1))
      (Along.recalled k l count x y (Along-append raw a) (omega arith) (omega arith) least_le
        (omega arith))

-- A load behind a store, and its value.
pub Loads-least_of :
    (newest : Bool) {A : Type 0} (c : Cell A) (i : ℕ)
    → Loads newest c i
    → 0 < length c.stored
    → least_of newest ≤ i
Loads-least_of true c i l h = omega (arith, l.last refl)
Loads-least_of false c i l h = omega arith

pub value-x_at :
    (s : Shared) (i : ℕ) → IsStored (stores s) → value s.last_pose_x i ≡ x_at s.received i
value-x_at s i h = rw (h.first_x, h.xs) refl

pub value-y_at :
    (s : Shared) (i : ℕ)
    → i ≤ length s.last_pose_y.stored
    → IsStored (stores s)
    → value s.last_pose_y i ≡ y_at s.received i
value-y_at s i le h =
    rw h.first_y (
      sym (
        get_or-append_left (0 ∷ s.last_pose_y.stored) (ys_of (lacks_y s.read_pc)) i 0
          (omega arith)))
    ∙ ap (λ l. get_or (0 ∷ l) i 0) h.ys
