-- ===== src/Diagnostic/Serial/Hex.antt =====
-- The hex text of bytes is read back.
use ros2_dji_serial_bridge.Base.{
  Bool-cases, inl, inr, ℕ, ◌+◌, ◌-◌, ◌*◌, ◌/◌, ◌%◌, ◌<◌, ◌≡◌, refl, ap, ◌∙◌, arith, Bool, true,
  false, not, ◌&&◌, List, [], ◌∷◌, ◌++◌, length, length-append, leb, ◌==◌, if◌then◌else◌,
}
use ros2_dji_serial_bridge.Base.Bytes.{AreBytes}
use ros2_dji_serial_bridge.Diagnostic.Serial.{hex_digit, hex_byte, hex_loop, hex}

-- A reader of hex text: spaces are skipped, digits taken in pairs.
unfoldable pub digit_value : ℕ → ℕ
digit_value c = if leb c b'9' then c - b'0' else c - b'a' + 10

unfoldable pub read_hex : List ℕ → List ℕ
read_hex [] = []
read_hex (a ∷ []) = []
read_hex (a ∷ c ∷ text) =
    let pair = (digit_value a * 16 + digit_value c) ∷ read_hex text in
    let rest = read_hex (c ∷ text) in if a == b' ' then rest else pair

digit_value-hex_digit : (d : ℕ) → d < 16 → digit_value (hex_digit d) ≡ d
unfolding digit_value hex_digit
digit_value-hex_digit d h = ground arith

hex_digit-lt : (d : ℕ) → b' ' < hex_digit d
unfolding hex_digit
hex_digit-lt d = ground arith

read_hex-hex_byte :
    (b : ℕ) (text : List ℕ) → b < 256 → read_hex (hex_byte b ++ text) ≡ b ∷ read_hex text
unfolding read_hex hex_byte
read_hex-hex_byte b text h =
    ground
      (arith, digit_value-hex_digit (b / 16), digit_value-hex_digit (b % 16), hex_digit-lt (b / 16))

-- A blank before a text of two bytes at least is skipped.
read_hex_blank : (a : ℕ) (text : List ℕ) → read_hex (b' ' ∷ a ∷ text) ≡ read_hex (a ∷ text)
unfolding read_hex
read_hex_blank a text = refl

read_hex_item :
    (spaces first : Bool) (b : ℕ) (text : List ℕ)
    → b < 256
    → read_hex ((if spaces && not first then b' ' ∷ [] else []) ++ (hex_byte b ++ text))
      ≡ b ∷ read_hex text
read_hex_item spaces first b text h = elim (Bool-cases (spaces && not first)) [
  | inl blank ↦ rw blank (unfold hex_byte in read_hex_blank _ _ ∙ read_hex-hex_byte b text h)
  | inr none_there ↦ rw none_there (read_hex-hex_byte b text h)
]

read_hex-hex_loop :
    (spaces first : Bool) (bytes : List ℕ)
    → AreBytes bytes
    → read_hex (hex_loop spaces first bytes) ≡ bytes
unfolding hex_loop
read_hex-hex_loop spaces first [] h = unfold read_hex in refl
read_hex-hex_loop spaces first (b ∷ bytes) h =
    read_hex_item spaces first b (hex_loop spaces false bytes) h.0
    ∙ ap (◌∷◌ b) (read_hex-hex_loop spaces false bytes h.1)

length-hex_loop :
    (spaces first : Bool) (bytes : List ℕ)
    → length (hex_loop spaces first bytes)
      ≡ 2 * length bytes + (if spaces then length bytes - (if first then 1 else 0) else 0)
unfolding hex_loop hex_byte
length-hex_loop spaces first [] = ground arith
length-hex_loop spaces first (b ∷ bytes) = ground (
  arith,
  length-append (if spaces && not first then b' ' ∷ [] else [])
      (hex_byte b ++ hex_loop spaces false bytes),
  length-hex_loop spaces false bytes,
)

-- The hex text of bytes, with blanks or without, is read back as those bytes. It has two
-- digits a byte, and one blank between each two bytes if asked for.
pub read_hex-hex :
    (bytes : List ℕ) (spaces : Bool)
    → AreBytes bytes
    → (read_hex (hex bytes spaces) ≡ bytes)
      × (length (hex bytes spaces) ≡ 2 * length bytes + (if spaces then length bytes - 1 else 0))
unfolding hex
read_hex-hex bytes spaces h =
    (read_hex-hex_loop spaces true bytes h, length-hex_loop spaces true bytes)
