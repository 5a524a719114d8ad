-- ===== src/Protocol/Header.antt =====
-- `UsbIpHeaderBasic` and the numbers of the protocol.
use nusbip.Common.{
  ℕ, List, [], ◌∷◌, ◌++◌, Bool, bit_and, ◌==◌, debug_assert, u32_be, IsU32, Outcome, ok, panic,
  bind, from_be4,
}
use nusbip.Protocol.Input.{Reader, ◌>>=◌, ◌>>◌, pure, lift, read_u32}

abbrev pub usbip_version : ℕ
usbip_version = 0x0111

abbrev pub op_req_devlist : ℕ
op_req_devlist = 0x8005

abbrev pub op_req_import : ℕ
op_req_import = 0x8003

abbrev pub op_rep_devlist : ℕ
op_rep_devlist = 0x0005

abbrev pub op_rep_import : ℕ
op_rep_import = 0x0003

abbrev pub usbip_cmd_submit : ℕ
usbip_cmd_submit = 0x0001

abbrev pub usbip_cmd_unlink : ℕ
usbip_cmd_unlink = 0x0002

abbrev pub usbip_ret_submit : ℕ
usbip_ret_submit = 0x0003

abbrev pub usbip_ret_unlink : ℕ
usbip_ret_unlink = 0x0004

-- `Direction::Out as u32` and `Direction::In as u32`.
abbrev pub direction_out : ℕ
direction_out = 0

abbrev pub direction_in : ℕ
direction_in = 1

pub record HeaderBasic : Type 0 where
  pub command : ℕ
  pub seqnum : ℕ
  pub devid : ℕ
  pub direction : ℕ
  pub ep : ℕ

-- `UsbIpHeaderBasic::to_bytes`: the five fields, one after the other.
unfoldable pub header_to_bytes : HeaderBasic → List ℕ
header_to_bytes h =
    u32_be h.command ++ (u32_be h.seqnum ++ (u32_be h.devid ++ (u32_be h.direction ++ u32_be h.ep)))

unfoldable pub read_from_socket_with_command : Bool → ℕ → Reader HeaderBasic
read_from_socket_with_command debug command = do
  seqnum ← read_u32
  devid ← read_u32
  direction ← read_u32
  lift (debug_assert debug (bit_and direction 1 == direction))
  ep ← read_u32
  pure
      (record { command = command; seqnum = seqnum; devid = devid; direction = direction; ep = ep })

-- `UsbIpHeaderBasic::from_bytes`, on a `[u8; 20]`; no other list has a header.
unfoldable pub from_bytes : Bool → List ℕ → Outcome HeaderBasic
from_bytes debug
      (b0 ∷ b1 ∷ b2 ∷ b3 ∷ b4 ∷ b5 ∷ b6 ∷ b7 ∷ b8 ∷ b9 ∷ b10 ∷ b11 ∷ b12 ∷ b13 ∷ b14 ∷ b15 ∷ b16
        ∷ b17 ∷ b18 ∷ b19 ∷ []) =
    let direction = from_be4 b12 b13 b14 b15 in
    bind (debug_assert debug (bit_and direction 1 == direction)) λ _. ok (record {
      command = from_be4 b0 b1 b2 b3;
      seqnum = from_be4 b4 b5 b6 b7;
      devid = from_be4 b8 b9 b10 b11;
      direction = direction;
      ep = from_be4 b16 b17 b18 b19;
    })
from_bytes debug _ = panic

pub record HeaderFits (h : HeaderBasic) : Type 0 where
  pub command_fits : IsU32 h.command
  pub seqnum_fits : IsU32 h.seqnum
  pub devid_fits : IsU32 h.devid
  pub direction_fits : IsU32 h.direction
  pub ep_fits : IsU32 h.ep
