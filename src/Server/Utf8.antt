-- ===== src/Server/Utf8.antt =====
-- `str::from_utf8` of the standard library, which src/lib.rs calls on a bus id: whether bytes are the
-- UTF-8 form of a text.
use nusbip.Common.{
  ℕ, ◌-◌, List, [], ◌∷◌, Option, none, some, Bool, false, ◌&&◌, ltb, leb, ◌==◌, if◌then◌else◌,
}

-- How many bytes of the current code point are to come, and the range of the next of them.
record Utf8State : Type 0 where
  pending : ℕ
  low : ℕ
  high : ℕ

abbrev between_points : Utf8State
between_points = record { pending = 0; low = 0; high = 0 }

abbrev expect : ℕ → ℕ → ℕ → Option Utf8State
expect n low high = some (record { pending = n; low = low; high = high })

first_byte : ℕ → Option Utf8State
first_byte b =
    if ltb b 0x80
    then some between_points
    else if ltb b 0xc2
    then none
    else if ltb b 0xe0
    then expect 1 0x80 0xbf
    else if b == 0xe0
    then expect 2 0xa0 0xbf
    else if b == 0xed
    then expect 2 0x80 0x9f
    else if ltb b 0xf0
    then expect 2 0x80 0xbf
    else if b == 0xf0
    then expect 3 0x90 0xbf
    else if ltb b 0xf4
    then expect 3 0x80 0xbf
    else if b == 0xf4
    then expect 3 0x80 0x8f
    else none

next_byte : Utf8State → ℕ → Option Utf8State
unfolding first_byte
next_byte s b =
    if s.pending == 0
    then first_byte b
    else if leb s.low b && leb b s.high
    then expect (s.pending - 1) 0x80 0xbf
    else none

utf8_from : Utf8State → List ℕ → Bool
unfolding next_byte
utf8_from s [] = s.pending == 0
utf8_from s (b ∷ bs) = elim (next_byte s b) [ none ↦ false | some s' ↦ utf8_from s' bs ]

unfoldable pub is_utf8 : List ℕ → Bool
unfolding utf8_from
is_utf8 bs = utf8_from between_points bs
