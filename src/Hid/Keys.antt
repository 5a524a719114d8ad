-- ===== src/Hid/Keys.antt =====
-- The key codes of src/hid.rs against the table of the USB standard.
use nusbip.Common.{
  Bool-cases, ==_iff, sym, ◌∙◌, inl, inr, ◌⊎◌, ◌≤◌, ℕ, ◌+◌, ◌-◌, ◌∷◌, Option, none, some, ◌&&◌,
  ◌||◌, ◌==◌, if_cases, leb, if◌then◌else◌, replicate, Outcome, ok, err, panic, hang, ◌≡◌, ◌≢◌,
  refl, arith,
}
use mathlib.Core.Bool.{false≢true}
use nusbip.Hid.{KeyboardReport, key_of_ascii, from_ascii}

-- The characters of the keys behind the digits, on a US keyboard; 50 is a key that this does not have.
abbrev symbol_of : ℕ → Option ℕ
symbol_of key =
    if key == 40
    then some 10
    else if key == 41
    then some 27
    else if key == 42
    then some 8
    else if key == 43
    then some 9
    else if key == 44
    then some b' '
    else if key == 45
    then some b'-'
    else if key == 46
    then some b'='
    else if key == 47
    then some b'['
    else if key == 48
    then some b']'
    else if key == 49
    then some 92
    else if key == 51
    then some b';'
    else if key == 52
    then some 39
    else if key == 53
    then some b'`'
    else if key == 54
    then some b','
    else if key == 55
    then some b'.'
    else if key == 56
    then some b'/'
    else none

-- The character that a key of the main block types without a modifier, by the usage table of the HID
-- standard: usages 4 to 29 are the letters, 30 to 38 the digits from 1, 39 is 0, 40 the return key, and
-- 41 to 56 are escape, backspace, tab, space and the punctuation.
abbrev pub usage_ascii : ℕ → Option ℕ
usage_ascii key =
    if leb 4 key && leb key 29
    then some (key - 4 + b'a')
    else if leb 30 key && leb key 38
    then some (key - 30 + b'1')
    else if key == 39
    then some b'0'
    else symbol_of key

-- A return types a new line.
abbrev pub typed : ℕ → ℕ
typed ascii = if ascii == 13 then 10 else ascii

-- The key types the character, and no other key does.
abbrev pub IsKeyOf : ℕ → ℕ → Type 0
IsKeyOf ascii key =
    (usage_ascii key ≡ some (typed ascii))
    × ((k : ℕ) → (k ≡ key) ⊎ (usage_ascii k ≢ some (typed ascii)))

-- A report with no modifier and one key, which is a letter, a digit or return; or a panic for a
-- character that none of these keys types.
abbrev pub Types : ℕ → Outcome KeyboardReport → Type 0
Types ascii (ok r) =
    (key : ℕ) × (r ≡ record { modifier = 0; keys = key ∷ replicate 5 0 })
    × (key ≤ 40)
    × IsKeyOf ascii key
Types ascii panic = (key : ℕ) → (41 ≤ key) ⊎ (usage_ascii key ≢ some (typed ascii))
Types ascii _ = ⊥

-- The same of the key code alone.
abbrev TypesKey : ℕ → Outcome ℕ → Type 0
TypesKey ascii (ok key) = (key ≤ 40) × IsKeyOf ascii key
TypesKey ascii panic = (key : ℕ) → (41 ≤ key) ⊎ (usage_ascii key ≢ some (typed ascii))
TypesKey ascii _ = ⊥

-- A key code that is the only one of its character.
only_key :
    (ascii key : ℕ)
    → key ≤ 40
    → usage_ascii key ≡ some (typed ascii)
    → ((k : ℕ) → usage_ascii k ≡ some (typed ascii) → k ≡ key)
    → TypesKey ascii (ok key)
only_key ascii key small types only = (
  small,
  (
    types,
    λ k. elim (Bool-cases (k == key)) [
      | inl e ↦ inl ((==_iff k key).0 e)
      | inr e ↦ inr (λ h. false≢true (sym e ∙ (==_iff k key).1 (only k h)))
    ],
  ),
)

key-TypesKey : (ascii : ℕ) → TypesKey ascii (key_of_ascii ascii)
unfolding key_of_ascii
key-TypesKey ascii =
    if_cases (TypesKey ascii) (leb b'a' ascii && leb ascii b'z')
      (λ h. only_key ascii (ascii - b'a' + 4) (ground arith) (ground arith) λ k e. ground arith)
      λ letter.
        if_cases (TypesKey ascii) (leb b'1' ascii && leb ascii b'9')
          (λ h.
            only_key ascii (ascii - b'1' + 30) (ground arith) (ground arith) λ k e. ground arith)
          λ digit.
            if_cases (TypesKey ascii) (ascii == b'0')
              (λ h. only_key ascii 39 (omega arith) (ground arith) λ k e. ground arith)
              λ nought.
                if_cases (TypesKey ascii) (ascii == 13 || ascii == 10)
                  (λ h. only_key ascii 40 (omega arith) (ground arith) λ k e. ground arith)
                  λ return key. elim (Bool-cases (leb 41 key)) [
                    | inl e ↦ inl (ground arith)
                    | inr e ↦ inr (λ h. ground arith)
                  ]

-- The report for a character is of the one key that types it, among the keys 4 to 56 of the table of the HID
-- standard, without a modifier; that key is a letter, a digit or return, 40 at most. A character that no
-- key up to 40 types panics, though a later one may type it, as the space bar does. The character of a
-- carriage return counts as a new line.
pub from_ascii-Types : (ascii : ℕ) → Types ascii (from_ascii ascii)
unfolding from_ascii
from_ascii-Types ascii = by_key (key_of_ascii ascii) (key-TypesKey ascii)
  where
    by_key :
        (o : Outcome ℕ)
        → TypesKey ascii o
        → Types ascii (elim o [
          | ok key ↦ ok (record { modifier = 0; keys = key ∷ replicate 5 0 })
          | _ ↦ panic
        ])
    by_key (ok key) (small, types) = (key, refl, small, types)
    by_key panic h = h
    by_key (err e) h = absurd h
    by_key hang h = absurd h
