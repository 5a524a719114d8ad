-- ===== src/Setup/Laws.antt =====
-- src/setup.rs: parsing against the wire form of the USB standard.
use nusbip.Common.{ℕ, ◌*◌, ◌/◌, ◌%◌, ◌≡◌, List, [], ◌∷◌, IsByte, IsU16, arith}
use nusbip.Common.Bits.{join_bytes}
use nusbip.Setup.{SetupPacket, word_le, parse}
use nusbip.Common.{◌∙◌}

-- A packet whose fields fit their bytes and words.
pub record IsWellFormed (s : SetupPacket) : Type 0 where
  pub request_type_fits : IsByte s.request_type
  pub request_fits : IsByte s.request
  pub value_fits : IsU16 s.value
  pub index_fits : IsU16 s.index
  pub length_fits : IsU16 s.length

-- The eight bytes of a packet on the wire: words are little-endian.
unfoldable pub wire : SetupPacket → List ℕ
wire s =
    s.request_type
    ∷ s.request
    ∷ (s.value % 256)
    ∷ (s.value / 256)
    ∷ (s.index % 256)
    ∷ (s.index / 256)
    ∷ (s.length % 256)
    ∷ (s.length / 256)
    ∷ []

word_le-split : (w : ℕ) → IsU16 w → word_le (w % 256) (w / 256) ≡ w
unfolding word_le
word_le-split w h = rw whole (join_bytes (w / 256) (w % 256) (omega arith) ∙ omega arith)
  where
    whole : w / 256 * 256 % 0x1_0000 ≡ w / 256 * 256
    whole = omega arith

-- Parsing reads back the fields of every packet from its wire form.
pub parse-wire : (s : SetupPacket) → IsWellFormed s → parse (wire s) ≡ s
unfolding parse wire
parse-wire s v =
    ground (arith, word_le-split s.value, word_le-split s.index, word_le-split s.length)
