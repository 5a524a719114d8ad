-- ===== src/Setup.antt =====
-- src/setup.rs: the SETUP packet of a control transfer. A `[u8; 8]` is a list of eight bytes.
pub mod Laws
use nusbip.Common.{ℕ, ◌*◌, ◌%◌, ◌^◌, List, Bool, ◌||◌, not, bit_or, get_or, ◌==◌}

pub record SetupPacket : Type 0 where
  pub request_type : ℕ
  pub request : ℕ
  pub value : ℕ
  pub index : ℕ
  pub length : ℕ

-- `((setup[i + 1] as u16) << 8) | (setup[i] as u16)`.
unfoldable pub word_le : ℕ → ℕ → ℕ
word_le lo hi = bit_or (hi * 2 ^ 8 % 2 ^ 16) lo

unfoldable pub parse : List ℕ → SetupPacket
unfolding word_le
parse setup = record {
  request_type = get_or setup 0 0;
  request = get_or setup 1 0;
  value = word_le (get_or setup 2 0) (get_or setup 3 0);
  index = word_le (get_or setup 4 0) (get_or setup 5 0);
  length = word_le (get_or setup 6 0) (get_or setup 7 0);
}

unfoldable pub is_setup : SetupPacket → Bool
is_setup s =
    not (s.request_type == 0)
    || not (s.request == 0)
    || not (s.value == 0)
    || not (s.index == 0)
    || not (s.length == 0)
