-- ===== src/Device/Text.antt =====
-- The descriptor of a string in src/device.rs, against the text that a host reads from it.
use nusbip.Common.{
  ℕ, ◌+◌, ◌-◌, ◌*◌, ◌/◌, ◌%◌, ◌^◌, ◌≤◌, ◌<◌, List, [], ◌∷◌, Option, none, some, Bool, true, false,
  ◌&&◌, ltb, leb, if◌then◌else◌, if_cases, length, All, Outcome, ok, panic, bind, ◌≡◌, refl, ap,
  Bool-cases, ◌∙◌, arith, ◌⊎◌, inl, inr,
}
use nusbip.Consts.{descriptor_code, string}
use nusbip.Device.Descriptors.{
  encode_utf16, units_le, low_byte, high_byte, string_length_byte, text_descriptor,
}

-- What a `char` may be: no surrogate, and at most 0x10ffff.
abbrev pub IsChar : ℕ → Type 0
IsChar c = (c < 0xd800) ⊎ ((0xdfff < c) × (c < 0x11_0000))

-- The units of two bytes each, the low byte first.
abbrev pub units_of : List ℕ → List ℕ
units_of [] = []
units_of (b ∷ []) = []
units_of (low ∷ high ∷ bytes) = (low + 256 * high) ∷ units_of bytes

-- The text of UTF-16 units, by the Unicode standard: a unit from 0xd800 below 0xdc00 is the front of a
-- pair, and stays pending.
abbrev pub decode_utf16 : Option ℕ → List ℕ → List ℕ
decode_utf16 pending [] = []
decode_utf16 (some u) (v ∷ units) =
    (0x1_0000 + (u - 0xd800) * 0x400 + (v - 0xdc00)) ∷ decode_utf16 none units
decode_utf16 none (u ∷ units) =
    if leb 0xd800 u && ltb u 0xdc00
    then decode_utf16 (some u) units
    else u ∷ decode_utf16 none units

unit_lem : (u : ℕ) → u < 2 ^ 16 → low_byte u + 256 * high_byte u ≡ u
unit_lem u h = omega arith

plain_unit :
    (u : ℕ) (units : List ℕ)
    → u < 2 ^ 16
    → (leb 0xd800 u && ltb u 0xdc00) ≡ false
    → decode_utf16 none (units_of (units_le (u ∷ units)))
      ≡ u ∷ decode_utf16 none (units_of (units_le units))
unfolding units_le
plain_unit u units h e = rw (unit_lem u h, e) refl

pair_units :
    (u v : ℕ) (units : List ℕ)
    → u < 2 ^ 16
    → v < 2 ^ 16
    → (leb 0xd800 u && ltb u 0xdc00) ≡ true
    → decode_utf16 none (units_of (units_le (u ∷ v ∷ units)))
      ≡ (0x1_0000 + (u - 0xd800) * 0x400 + (v - 0xdc00))
        ∷ decode_utf16 none (units_of (units_le units))
unfolding units_le
pair_units u v units h k e = rw (unit_lem u h, unit_lem v k, e) refl

-- The units of a text, as they stand in a descriptor, are those of the text.
text_of_units :
    (s : List ℕ) → All IsChar s → decode_utf16 none (units_of (units_le (encode_utf16 s))) ≡ s
unfolding encode_utf16 units_le
text_of_units [] w = refl
text_of_units (c ∷ cs) (h, w) = elim (Bool-cases (ltb c 0x1_0000)) [
  | inl e ↦ rw e (
      plain_unit c (encode_utf16 cs) (ground arith) (ground arith)
      ∙ ap (◌∷◌ c) (text_of_units cs w))
  | inr e ↦ rw e (
      pair_units (0xd800 + (c - 0x1_0000) / 0x400) (0xdc00 + (c - 0x1_0000) % 0x400)
        (encode_utf16 cs) (ground arith) (ground arith) (ground arith)
      ∙ rw (text_of_units cs w) (ap (λ (d : ℕ). d ∷ cs) (ground arith)))
]

pub length-units_le : (units : List ℕ) → length (units_le units) ≡ 2 * length units
unfolding units_le
length-units_le [] = refl
length-units_le (u ∷ units) = omega (arith, length-units_le units)

-- The length byte of a descriptor is its length just if the text has 126 units at most, and is too
-- small otherwise.
abbrev HasLengthByte : (units n : ℕ) → List ℕ → Type 0
HasLengthByte units n bytes =
    ((units ≤ 126) × (n ≡ length bytes)) ⊎ ((127 ≤ units) × (n < length bytes))

-- The descriptor of a text: its length byte, the type, and the text in UTF-16; a panic is one of a
-- debug build on a text of more than 126 units.
abbrev pub IsTextDescriptor : Bool → List ℕ → Outcome (List ℕ) → Type 0
IsTextDescriptor debug s (ok (n ∷ t ∷ bytes)) =
    (t ≡ 3)
    × (decode_utf16 none (units_of bytes) ≡ s)
    × HasLengthByte (length (encode_utf16 s)) n (n ∷ t ∷ bytes)
IsTextDescriptor debug s panic = (debug ≡ true) × (127 ≤ length (encode_utf16 s))
IsTextDescriptor debug s _ = ⊥

length_byte :
    (units : ℕ) (bytes : List ℕ)
    → length bytes ≡ 2 * units
    → HasLengthByte units
        (low_byte (2 + low_byte units * 2))
        (low_byte (2 + low_byte units * 2) ∷ 3 ∷ bytes)
length_byte units bytes e = elim (Bool-cases (ltb units 127)) [
  | inl h ↦ inl (ground arith, ground arith)
  | inr h ↦ inr (ground arith, ground arith)
]

-- The descriptor of every text holds the text, in UTF-16. Its length byte is right for a text of at
-- most 126 units; for a longer one it is too small, or a debug build panics.
pub text_descriptor-IsTextDescriptor :
    (debug : Bool) (s : List ℕ) → All IsChar s → IsTextDescriptor debug s (text_descriptor debug s)
unfolding text_descriptor string_length_byte descriptor_code
text_descriptor-IsTextDescriptor debug s w =
    if_cases
      (λ (o : Outcome ℕ).
        IsTextDescriptor debug s
          (bind o λ n. ok (n ∷ descriptor_code string ∷ units_le (encode_utf16 s))))
      (debug && ltb 255 (2 + low_byte (length (encode_utf16 s)) * 2))
      (λ e. (ground arith, ground arith))
      λ e. (
        refl,
        text_of_units s w,
        length_byte (length (encode_utf16 s)) (units_le (encode_utf16 s))
            (length-units_le (encode_utf16 s)),
      )
