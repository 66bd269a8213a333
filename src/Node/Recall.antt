-- ===== src/Node/Recall.antt =====
-- The pose that `relocalize_callback` recalls, one shared access a step: the read thread stores
-- `last_pose_x_`, `last_pose_y_` and `have_pose_` in `handle_pose`, and the executor thread loads them
-- when it logs a relocalisation. All three are relaxed atomics with one writer.
pub mod Stores
pub mod Lines
pub mod Writer
pub mod Reader
pub mod Steps
pub mod Abstract
pub mod Simulate
pub mod Coarse
use ros2_dji_serial_bridge.Base.{
  ℕ, ◌+◌, ◌≤◌, ◌≡◌, Bool, true, false, List, [], ◌∷◌, ◌++◌, Option, none, some, length, get_or,
}
use ros2_dji_serial_bridge.Protocol.{PosePayload}
use ros2_dji_serial_bridge.Node.State.{Log}

-- A relaxed atomic: what was stored behind its first value, oldest first, and how far the executor
-- thread has read. A load gives any value that is not older than the last one it gave: 0 is the first
-- value.
pub record Cell {ℓ} (A : Type ℓ) : Type ℓ where
  pub initial : A
  pub stored : List A
  pub seen : ℕ

module _ {ℓ} {A : Type ℓ} where
  abbrev pub value : Cell A → ℕ → A
  value c i = get_or (c.initial ∷ c.stored) i c.initial

  abbrev pub store : A → Cell A → Cell A
  store a c = record c { stored = c.stored ++ (a ∷ []) }

  abbrev pub see : ℕ → Cell A → Cell A
  see i c = record c { seen = i }

  -- A load may give value `i`; under `newest` it gives the last one stored.
  pub record Loads (newest : Bool) (c : Cell A) (i : ℕ) : Type 0 where
    pub forward : c.seen ≤ i
    pub present : i ≤ length c.stored
    pub last : newest ≡ true → i ≡ length c.stored

-- Where the read thread stands in `handle_pose`, with the pose that it stores.
pub data ReadPc : Type 0 where
  outside : ReadPc
  stored_x stored_y : (raw : PosePayload) → ReadPc

-- Where the executor thread stands in `relocalize_callback` behind a successful `send_frame`, with the
-- number of the message and its coordinates, and what it has loaded. The two loads are arguments of
-- one call, which may come in either order.
pub data LogPc : Type 0 where
  elsewhere : LogPc
  asks recalls : (count x y : ℕ) → LogPc
  has_x has_y : (count x y loaded : ℕ) → LogPc

-- `received` are the poses whose storing has begun, oldest first; `said` are the lines on
-- relocalisations.
pub record Shared : Type 0 where
  pub last_pose_x : Cell ℕ
  pub last_pose_y : Cell ℕ
  pub have_pose : Cell Bool
  pub read_pc : ReadPc
  pub log_pc : LogPc
  pub received : List PosePayload
  pub said : List Log

abbrev pub before_poses : Shared
before_poses = record {
  last_pose_x = record { initial = 0; stored = []; seen = 0 };
  last_pose_y = record { initial = 0; stored = []; seen = 0 };
  have_pose = record { initial = false; stored = []; seen = 0 };
  read_pc = ReadPc.outside;
  log_pc = LogPc.elsewhere;
  received = [];
  said = [];
}

-- What each step leaves.
abbrev pub storing_x : PosePayload → Shared → Shared
storing_x raw s = record s {
  last_pose_x = store raw.x s.last_pose_x;
  received = s.received ++ (raw ∷ []);
  read_pc = ReadPc.stored_x raw;
}

abbrev pub storing_y : PosePayload → Shared → Shared
storing_y raw s = record s {
  last_pose_y = store raw.y s.last_pose_y;
  read_pc = ReadPc.stored_y raw;
}

abbrev pub storing_have : Shared → Shared
storing_have s = record s { have_pose = store true s.have_pose; read_pc = ReadPc.outside }

abbrev pub log_relocalized : (count x y : ℕ) → Option (ℕ × ℕ) → Shared → Shared
log_relocalized count x y pose s = record s {
  log_pc = LogPc.elsewhere;
  said = s.said ++ (Log.relocalized count pose x y ∷ []);
}

pub data Step (newest : Bool) (s : Shared) : Shared → Type 0 where
  store_x : (raw : PosePayload) → s.read_pc ≡ ReadPc.outside → Step newest s (storing_x raw s)
  store_y : (raw : PosePayload) → s.read_pc ≡ ReadPc.stored_x raw → Step newest s (storing_y raw s)
  store_have :
      (raw : PosePayload) → s.read_pc ≡ ReadPc.stored_y raw → Step newest s (storing_have s)
  sent :
      (count x y : ℕ)
      → s.log_pc ≡ LogPc.elsewhere
      → Step newest s (record s { log_pc = LogPc.asks count x y })
  load_none :
      (count x y i : ℕ)
      → s.log_pc ≡ LogPc.asks count x y
      → Loads newest s.have_pose i
      → value s.have_pose i ≡ false
      → Step newest s (log_relocalized count x y none (record s { have_pose = see i s.have_pose }))
  load_have :
      (count x y i : ℕ)
      → s.log_pc ≡ LogPc.asks count x y
      → Loads newest s.have_pose i
      → value s.have_pose i ≡ true
      → Step newest s (record s { have_pose = see i s.have_pose; log_pc = LogPc.recalls count x y })
  load_x :
      (count x y i : ℕ)
      → s.log_pc ≡ LogPc.recalls count x y
      → Loads newest s.last_pose_x i
      → Step newest s (record s {
        last_pose_x = see i s.last_pose_x;
        log_pc = LogPc.has_x count x y (value s.last_pose_x i);
      })
  load_y :
      (count x y i : ℕ)
      → s.log_pc ≡ LogPc.recalls count x y
      → Loads newest s.last_pose_y i
      → Step newest s (record s {
        last_pose_y = see i s.last_pose_y;
        log_pc = LogPc.has_y count x y (value s.last_pose_y i);
      })
  then_y :
      (count x y px i : ℕ)
      → s.log_pc ≡ LogPc.has_x count x y px
      → Loads newest s.last_pose_y i
      → Step newest s (
          log_relocalized count x y
            (some (px, value s.last_pose_y i))
            (record s { last_pose_y = see i s.last_pose_y }))
  then_x :
      (count x y py i : ℕ)
      → s.log_pc ≡ LogPc.has_y count x y py
      → Loads newest s.last_pose_x i
      → Step newest s (
          log_relocalized count x y
            (some (value s.last_pose_x i, py))
            (record s { last_pose_x = see i s.last_pose_x }))

-- Any interleaving of the two threads.
pub data Reach (newest : Bool) : Shared → Type 0 where
  start : Reach newest before_poses
  later : {s t : Shared} → Reach newest s → Step newest s t → Reach newest t
