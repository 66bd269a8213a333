-- ===== src/Node/Recall/Stores.antt =====
-- What the read thread has stored of the poses, at any moment.
use ros2_dji_serial_bridge.Base.{
  ℕ, ◌+◌, ◌≤◌, ◌≡◌, refl, sym, ap, ◌∙◌, arith, Bool, true, false, List, [], ◌∷◌, ◌++◌, length, map,
  append-nil, map-append, length-append, length-map,
}
use ros2_dji_serial_bridge.Protocol.{PosePayload}
use ros2_dji_serial_bridge.Node.Recall.{
  ReadPc, Shared, storing_x, storing_y, storing_have, before_poses,
}

-- The coordinates of the poses received, behind the first value 0.
abbrev pub xs_of : List PosePayload → List ℕ
xs_of poses = map (λ p. p.x) poses

abbrev pub ys_of : List PosePayload → List ℕ
ys_of poses = map (λ p. p.y) poses

-- The pose whose `y` is still to be stored, and the one whose flag is.
abbrev pub lacks_y : ReadPc → List PosePayload
lacks_y (ReadPc.stored_x raw) = raw ∷ []
lacks_y _ = []

abbrev pub lacks_have : ReadPc → List PosePayload
lacks_have (ReadPc.stored_x raw) = raw ∷ []
lacks_have (ReadPc.stored_y raw) = raw ∷ []
lacks_have _ = []

-- What the read thread writes, without how far the executor thread has read.
pub record Stores : Type 0 where
  pub first_x : ℕ
  pub first_y : ℕ
  pub first_have : Bool
  pub xs : List ℕ
  pub ys : List ℕ
  pub haves : List Bool
  pub read_pc : ReadPc
  pub received : List PosePayload

abbrev pub stores : Shared → Stores
stores s = record {
  first_x = s.last_pose_x.initial;
  first_y = s.last_pose_y.initial;
  first_have = s.have_pose.initial;
  xs = s.last_pose_x.stored;
  ys = s.last_pose_y.stored;
  haves = s.have_pose.stored;
  read_pc = s.read_pc;
  received = s.received;
}

-- The stores so far are those of the poses received, but for the one under way.
pub record IsStored (w : Stores) : Type 0 where
  pub first_x : w.first_x ≡ 0
  pub first_y : w.first_y ≡ 0
  pub first_have : w.first_have ≡ false
  pub xs : w.xs ≡ xs_of w.received
  pub ys : w.ys ++ ys_of (lacks_y w.read_pc) ≡ ys_of w.received
  pub haves : length w.haves + length (lacks_have w.read_pc) ≡ length w.received

pub before-IsStored : IsStored (stores before_poses)
before-IsStored = record {
  first_x = refl;
  first_y = refl;
  first_have = refl;
  xs = refl;
  ys = refl;
  haves = refl;
}

pub storing_x-IsStored :
    (raw : PosePayload) (s : Shared)
    → s.read_pc ≡ ReadPc.outside
    → IsStored (stores s)
    → IsStored (stores (storing_x raw s))
storing_x-IsStored raw s at h =
    let none_lacks : s.last_pose_y.stored ≡ ys_of s.received =
      sym (append-nil s.last_pose_y.stored)
      ∙ ap (λ pc. s.last_pose_y.stored ++ ys_of (lacks_y pc)) (sym at)
      ∙ h.ys in
    record {
      first_x = h.first_x;
      first_y = h.first_y;
      first_have = h.first_have;
      xs = ap (λ l. l ++ (raw.x ∷ [])) h.xs ∙ sym (map-append (λ p. p.x) s.received (raw ∷ []));
      ys =
          ap (λ l. l ++ (raw.y ∷ [])) none_lacks
          ∙ sym (map-append (λ p. p.y) s.received (raw ∷ []));
      haves = omega (
        arith,
        h.haves,
        ap (λ pc. length (lacks_have pc)) at,
        length-append s.received (raw ∷ []),
      );
    }

pub storing_y-IsStored :
    (raw : PosePayload) (s : Shared)
    → s.read_pc ≡ ReadPc.stored_x raw
    → IsStored (stores s)
    → IsStored (stores (storing_y raw s))
storing_y-IsStored raw s at h = record {
  first_x = h.first_x;
  first_y = h.first_y;
  first_have = h.first_have;
  xs = h.xs;
  ys =
      append-nil (s.last_pose_y.stored ++ (raw.y ∷ []))
      ∙ ap (λ pc. s.last_pose_y.stored ++ ys_of (lacks_y pc)) (sym at)
      ∙ h.ys;
  haves = omega (arith, h.haves, ap (λ pc. length (lacks_have pc)) at);
}

pub storing_have-IsStored :
    (raw : PosePayload) (s : Shared)
    → s.read_pc ≡ ReadPc.stored_y raw
    → IsStored (stores s)
    → IsStored (stores (storing_have s))
storing_have-IsStored raw s at h = record {
  first_x = h.first_x;
  first_y = h.first_y;
  first_have = h.first_have;
  xs = h.xs;
  ys = ap (λ pc. s.last_pose_y.stored ++ ys_of (lacks_y pc)) (sym at) ∙ h.ys;
  haves = omega (
    arith,
    h.haves,
    ap (λ pc. length (lacks_have pc)) at,
    length-append s.have_pose.stored (true ∷ []),
  );
}

lacks-le : (pc : ReadPc) → length (lacks_y pc) ≤ length (lacks_have pc)
lacks-le pc = ground arith

-- The flag is stored last, and `y` behind `x`.
pub stored_order :
    (w : Stores)
    → IsStored w
    → (length w.haves ≤ length w.ys)
      × (length w.ys ≤ length w.received)
      × (length w.xs ≡ length w.received)
stored_order w h = omega (
  arith,
  h.haves,
  lacks-le w.read_pc,
  ap length h.xs,
  length-map (λ (p : PosePayload). p.x) w.received,
  ap length h.ys,
  length-append w.ys (ys_of (lacks_y w.read_pc)),
  length-map (λ (p : PosePayload). p.y) w.received,
  length-map (λ (p : PosePayload). p.y) (lacks_y w.read_pc),
)
