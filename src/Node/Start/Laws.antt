-- ===== src/Node/Start/Laws.antt =====
-- When the constructor succeeds, and what line it leaves.
use ros2_dji_serial_bridge.Base.{
  among, ℕ, some_inverse, ap, ◌∙◌, sym, subst, ◌<◌, ◌/◌, ◌%◌, ◌^◌, ◌≡◌, refl, arith, Bool, true,
  false, ◌&&◌, List, [], ◌∷◌, ◌++◌, not, Option, none, some, if◌then◌else◌,
}
use ros2_dji_serial_bridge.Base.Int.{ℤ, pos}
use ros2_dji_serial_bridge.Node.State.{Node, Event}
use ros2_dji_serial_bridge.Node.Start.{
  Termios, Device, clear_nonblock, Platform, Parameters, Port, Started, as_int, baud_to_speed,
  line_attributes, apply_line, configure_serial, configured, entities, initial, ready_lines,
  configure, construct,
}

abbrev pub is_some : Option Termios → Bool
is_some none = false
is_some (some tty) = true

-- The system lets the port be opened and configured.
abbrev pub can_start : Platform → Bool
can_start sys =
    sys.exists && sys.is_char_device && sys.opens && is_some sys.attributes && sys.takes_attributes

abbrev pub is_ready : Started → Bool
is_ready (Started.thrown port es) = false
is_ready (Started.ready tty period n) = true

-- A port that the constructor leaves open although it throws.
abbrev pub leaks : Started → Bool
leaks (Started.thrown Port.opened es) = true
leaks _ = false

-- What follows in the constructor takes effect: the publishers, the subscriptions, the timer with its
-- period and the thread.
abbrev pub can_finish : Platform → Parameters → Bool
can_finish sys p =
    sys.publishers_created
    && sys.subscriptions_created
    && sys.timer_accepts p.diag_interval_s
    && sys.thread_starts

test_keeps : {A : Type 0} (P : A → Type 0) (b : Bool) (x y : A) → P x → P y → P (if b then x else y)
test_keeps P true x y h k = h
test_keeps P false x y h k = k

-- What holds of every exception and of the node that is ready holds of the end of the constructor.
pub entities_cases :
    (P : Started → Type 0) (device : Device) (sys : Platform) (p : Parameters) (before : List Event)
    → ((port : Port) (es : List Event) → P (Started.thrown port es))
    → P (Started.ready device p.diag_interval_s (initial p (before ++ ready_lines p)))
    → P (entities device sys p before)
unfolding entities
entities_cases P device sys p before h k =
    test_keeps P sys.publishers_created _ _
      (test_keeps P sys.subscriptions_created _ _
        (test_keeps P (sys.timer_accepts p.diag_interval_s && sys.thread_starts) _ _ k (h _ _))
        (h _ _))
      (h _ _)

-- The end of the constructor: the node is ready if all is created, and the port stays open if not.
abbrev Finishes : Bool → Started → Type 0
Finishes done t = (is_ready t ≡ done) × (leaks t ≡ not done)

entities-Finishes :
    (device : Device) (sys : Platform) (p : Parameters) (before : List Event)
    → Finishes (can_finish sys p) (entities device sys p before)
unfolding entities
entities-Finishes device sys p before = ground arith

-- The constructor succeeds exactly if the path is a character device that opens, whose attributes can
-- be read and written, and for which the publishers, the subscriptions, the timer (its period is the
-- parameter `diag_interval_s`, negative or not) and the thread are created. It throws and leaves the
-- port open exactly if the port is configured and one of these creations throws.
pub construct-is_ready :
    (make_raw : Termios → Termios) (sys : Platform) (p : Parameters)
    → (is_ready (construct make_raw sys p) ≡ (can_start sys && can_finish sys p))
      × (leaks (construct make_raw sys p) ≡ (can_start sys && not (can_finish sys p)))
unfolding construct configure configured configure_serial apply_line
construct-is_ready make_raw sys p = grind (arith, entities-Finishes)

-- 8 data bits, no parity, one stop bit, no flow control, no line editing, at a rate.
pub record Is8n1 (rate : ℕ) (tty : Termios) : Type 0 where
  pub rates : (tty.ispeed ≡ rate) × (tty.ospeed ≡ rate)
  pub char_size : tty.char_size ≡ 8
  pub parity : tty.parenb ≡ false
  pub stop : tty.cstopb ≡ false
  pub hardware_flow : tty.crtscts ≡ false
  pub software_flow : (tty.ixon ≡ false) × (tty.ixoff ≡ false) × (tty.ixany ≡ false)
  pub raw : (tty.lflag ≡ 0) × (tty.oflag ≡ 0)
  pub receiver : (tty.cread ≡ true) × (tty.clocal ≡ true)

line_attributes-Is8n1 :
    (make_raw : Termios → Termios) (rate : ℕ) (tty : Termios)
    → Is8n1 rate (line_attributes make_raw rate tty)
unfolding line_attributes
line_attributes-Is8n1 make_raw rate tty = record {
  rates = (refl, refl);
  char_size = refl;
  parity = refl;
  stop = refl;
  hardware_flow = refl;
  software_flow = (refl, refl, refl);
  raw = (refl, refl);
  receiver = (refl, refl);
}

-- The rates of the switch, as a list.
abbrev pub rates : List ℕ
rates = 9600 ∷ 19200 ∷ 38400 ∷ 57600 ∷ 115200 ∷ 230400 ∷ 460800 ∷ 921600 ∷ 2000000 ∷ 4000000 ∷ []

abbrev pub line_rate : ℕ → ℕ
line_rate baud = if among baud rates then baud else 921600

baud_to_speed-line_rate : (baud : ℕ) → (baud_to_speed (pos baud)).0 ≡ line_rate baud
unfolding baud_to_speed
baud_to_speed-line_rate baud = ground arith

as_int_small : (n : ℕ) → n < 2 ^ 31 → as_int (pos n) ≡ pos n
unfolding as_int
as_int_small n h = ground arith

-- O_NONBLOCK is not among the flags.
abbrev pub Blocks : ℕ → Type 0
Blocks flags = flags / 2 ^ 11 % 2 ≡ 0

clear_nonblock-Blocks : (fl : ℕ) → Blocks (clear_nonblock fl)
unfolding clear_nonblock
clear_nonblock-Blocks fl = ground arith

abbrev RunsAt : ℕ → Started → Type 0
RunsAt rate (Started.thrown port es) = Unit {0}
RunsAt rate (Started.ready tty period n) = Is8n1 rate tty.line × Blocks tty.flags

configured-RunsAt :
    (rate : ℕ) (c : Option Termios × List Event) (sys : Platform) (p : Parameters)
    (before : List Event)
    → ((tty : Termios) → c.0 ≡ some tty → Is8n1 rate tty)
    → RunsAt rate (configured c sys p before)
unfolding configured
configured-RunsAt rate (none, said) sys p before h = tt
configured-RunsAt rate (some tty, said) sys p before h =
    entities_cases (RunsAt rate) _ sys p (before ++ said) (λ port es. tt)
      (h tty refl, clear_nonblock-Blocks sys.status_flags)

apply_line-Is8n1 :
    (make_raw : Termios → Termios) (takes : Bool) (baud : ℕ) (attributes : Option Termios)
    → (tty : Termios) → (apply_line make_raw takes (pos baud) attributes).0 ≡ some tty
    → Is8n1 (line_rate baud) tty
unfolding apply_line
apply_line-Is8n1 make_raw takes baud none tty e = cc
apply_line-Is8n1 make_raw false baud (some old) tty e = cc
apply_line-Is8n1 make_raw true baud (some old) tty e =
    let rate = (baud_to_speed (pos baud)).0 in
    subst (Is8n1 (line_rate baud)) (some_inverse _ _ e) (
      subst (λ r. Is8n1 r (line_attributes make_raw rate old)) (baud_to_speed-line_rate baud)
        (line_attributes-Is8n1 make_raw rate old))

-- A constructor that succeeds with a baud rate from 0 to 2 ^ 31 - 1 leaves the line at 8 data bits, no parity,
-- one stop bit and no flow control, whatever `cfmakeraw` does, at that rate if it is one of the ten
-- of the switch and at 921600 otherwise; and it makes reads and writes block again.
pub construct-Is8n1 :
    (make_raw : Termios → Termios) (sys : Platform) (p : Parameters)
    → (baud : ℕ) (tty : Device) (period : ℤ) (n : Node) → p.baudrate ≡ pos baud
    → baud < 2 ^ 31
    → construct make_raw sys p ≡ Started.ready tty period n
    → Is8n1 (line_rate baud) tty.line × Blocks tty.flags
unfolding construct configure configure_serial
construct-Is8n1 make_raw sys p baud tty period n e small started =
    subst (RunsAt (line_rate baud)) started constructed
  where
    same : as_int p.baudrate ≡ pos baud
    same = ap as_int e ∙ as_int_small baud small

    tested :
        (b : Bool) (x y : Started)
        → RunsAt (line_rate baud) x
        → RunsAt (line_rate baud) y
        → RunsAt (line_rate baud) (if b then x else y)
    tested true x y h k = h
    tested false x y h k = k

    run : (before : List Event) → RunsAt (line_rate baud) (configure make_raw sys p before)
    run before = configured-RunsAt (line_rate baud) _ sys p before (λ tty f.
        apply_line-Is8n1 make_raw sys.takes_attributes baud sys.attributes tty
          (ap (λ i. (configure_serial make_raw sys i).0) (sym same) ∙ f))

    constructed : RunsAt (line_rate baud) (construct make_raw sys p)
    constructed =
        tested sys.exists _ _ (tested sys.is_char_device _ _ (tested sys.opens _ _ (run _) tt) tt)
          tt
