-- ===== src/Node/Recall/Abstract.antt =====
-- What the node remembers of the poses, as what the single stores have left.
use ros2_dji_serial_bridge.Base.{
  ℕ, suc, ◌+◌, ◌≤◌, ◌≡◌, refl, sym, ap, ◌∙◌, arith, true, List, [], ◌∷◌, ◌++◌, Option, none, some,
  length, get_or-append_right, append-nil, append_assoc, length-append, if◌then◌else◌,
}
use ros2_dji_serial_bridge.Node.State.{Node, Event, Log}
use ros2_dji_serial_bridge.Node.Callbacks.{previous_pose}
use ros2_dji_serial_bridge.Node.Recall.{
  Cell, value, store, Loads, ReadPc, LogPc, Shared, Reach as FineReach,
}

-- The value stored last.
abbrev pub newest_of {ℓ} : {A : Type ℓ} → Cell A → A
newest_of c = value c (length c.stored)

abbrev pub newest_pose : Shared → Option (ℕ × ℕ)
newest_pose f =
    if newest_of f.have_pose then some (newest_of f.last_pose_x, newest_of f.last_pose_y) else none

-- The lines on relocalisations among what the node did.
unfoldable pub recall_of : Event → List Log
recall_of (Event.logged (Log.relocalized count pose x y)) = Log.relocalized count pose x y ∷ []
recall_of _ = []

unfoldable pub recall_lines : List Event → List Log
recall_lines [] = []
recall_lines (e ∷ es) = recall_of e ++ recall_lines es

-- Both threads rest in `f`, which holds what the node remembers and has logged what the node has.
pub record Abstracts (n : Node) (f : Shared) : Type 0 where
  pub reads : f.read_pc ≡ ReadPc.outside
  pub logs : f.log_pc ≡ LogPc.elsewhere
  pub seen_x : f.last_pose_x.seen ≤ length f.last_pose_x.stored
  pub seen_y : f.last_pose_y.seen ≤ length f.last_pose_y.stored
  pub seen_have : f.have_pose.seen ≤ length f.have_pose.stored
  pub pose : previous_pose n ≡ newest_pose f
  pub said : f.said ≡ recall_lines n.events

abbrev pub Refined : Node → Type 0
Refined n = (f : Shared) × FineReach true f × Abstracts n f

pub recall_lines-append :
    (xs ys : List Event) → recall_lines (xs ++ ys) ≡ recall_lines xs ++ recall_lines ys
unfolding recall_lines
recall_lines-append [] ys = refl
recall_lines-append (x ∷ xs) ys =
    ap (λ l. recall_of x ++ l) (recall_lines-append xs ys)
    ∙ sym (append_assoc (recall_of x) (recall_lines xs) (recall_lines ys))

pub newest_of-store {ℓ} : {A : Type ℓ} (a : A) (c : Cell A) → newest_of (store a c) ≡ a
newest_of-store a c =
    let place : length (c.stored ++ (a ∷ [])) ≡ suc (length c.stored) + 0 =
      omega (arith, length-append c.stored (a ∷ [])) in
    rw place
      (get_or-append_right (c.initial ∷ c.stored) (a ∷ []) 0 (suc (length c.stored)) c.initial refl)

pub newest-Loads :
    {A : Type 0} (c : Cell A) → c.seen ≤ length c.stored → Loads true c (length c.stored)
newest-Loads c h = record { forward = h; present = omega arith; last = λ e. refl }

-- Events without a line on a relocalisation.
pub silent_said :
    (n t : Node) (es : List Event) (said : List Log)
    → recall_lines es ≡ []
    → t.events ≡ n.events ++ es
    → said ≡ recall_lines n.events
    → said ≡ recall_lines t.events
silent_said n t es said silent same h =
    h
    ∙ sym (append-nil (recall_lines n.events))
    ∙ ap (λ l. recall_lines n.events ++ l) (sym silent)
    ∙ sym (recall_lines-append n.events es)
    ∙ ap recall_lines (sym same)

pub silent-Refined :
    (n t : Node) (es : List Event)
    → recall_lines es ≡ []
    → t.events ≡ n.events ++ es
    → previous_pose t ≡ previous_pose n
    → Refined n
    → Refined t
silent-Refined n t es silent same pose (f, r, h) = (
  f,
  r,
  record {
    reads = h.reads;
    logs = h.logs;
    seen_x = h.seen_x;
    seen_y = h.seen_y;
    seen_have = h.seen_have;
    pose = pose ∙ h.pose;
    said = silent_said n t es f.said silent same h.said;
  },
)
