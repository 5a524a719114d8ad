-- ===== src/Protocol/RoundTrip.antt =====
-- The parser of src/usbip_protocol.rs reads back what its serialiser writes.
use nusbip.Common.{
  ℕ, zero, suc, ◌%◌, ◌≤◌, ◌<◌, ◌^◌, List, [], ◌∷◌, ◌++◌, Bool, true, false, ◌&&◌, ◌||◌, not, ◌==◌,
  if◌then◌else◌, length, replicate, append_assoc, bit_and, debug_assert, u16_be, u32_be, IsU16,
  IsU32, ok, ◌≡◌, refl, arith,
}
use nusbip.Protocol.Input.{pure, read_u16, read_u32, read_exact}
use nusbip.Protocol.Header.{
  usbip_version, op_req_devlist, op_req_import, HeaderBasic, header_to_bytes,
  read_from_socket_with_command, usbip_cmd_submit, usbip_cmd_unlink,
}
use nusbip.Protocol.Command.{
  Command, Submit, req_devlist, req_import, cmd_submit, cmd_unlink, submit_fields, command_to_bytes,
}
use nusbip.Protocol.Read.{
  read_devlist, read_import, read_data, read_iso, read_submit, read_unlink, read_body,
  check_version, read_from_socket,
}
use nusbip.Protocol.WellFormed.{
  InDebug, HeaderIsWellFormed, SubmitIsWellFormed, IsWellFormed, payload_length, iso_length,
}

pub read_u16-be : (v : ℕ) (rest : List ℕ) → IsU16 v → read_u16 (u16_be v ++ rest) ≡ ok (v, rest)
unfolding read_u16 u16_be
read_u16-be v rest h = ground arith

pub read_u32-be : (v : ℕ) (rest : List ℕ) → IsU32 v → read_u32 (u32_be v ++ rest) ≡ ok (v, rest)
unfolding read_u32 u32_be
read_u32-be v rest h = ground arith

pub read_exact-append :
    (n : ℕ) (bs rest : List ℕ) → length bs ≡ n → read_exact n (bs ++ rest) ≡ ok (bs, rest)
unfolding read_exact
read_exact-append zero [] rest h = refl
read_exact-append zero (b ∷ bs) rest h = absurd (omega arith)
read_exact-append (suc n) [] rest h = absurd (omega arith)
read_exact-append (suc n) (b ∷ bs) rest h = rw (read_exact-append n bs rest (omega arith))

pub direction_passes :
    (debug : Bool) (d : ℕ) → InDebug debug (d ≤ 1) → debug_assert debug (bit_and d 1 == d) ≡ ok tt
direction_passes false d h = refl
direction_passes true zero h = refl
direction_passes true (suc zero) h = refl
direction_passes true (suc (suc d)) h = ground arith

status_passes : (debug : Bool) (s : ℕ) → InDebug debug (s ≡ 0) → debug_assert debug (s == 0) ≡ ok tt
status_passes debug s h = ground arith

-- The header behind its command code, which `read_from_socket` has taken for the version and code.
abbrev header_tail : HeaderBasic → List ℕ → List ℕ
header_tail h rest =
    u32_be h.seqnum ++ (u32_be h.devid ++ (u32_be h.direction ++ (u32_be h.ep ++ rest)))

header-tail :
    (debug : Bool) (code : ℕ) (h : HeaderBasic) (rest : List ℕ)
    → HeaderIsWellFormed debug code h
    → read_from_socket_with_command debug code (header_tail h rest) ≡ ok (h, rest)
unfolding read_from_socket_with_command
header-tail debug code h rest w =
    rw
      (
        read_u32-be h.seqnum _ w.fields.seqnum_fits,
        read_u32-be h.devid _ w.fields.devid_fits,
        read_u32-be h.direction _ w.fields.direction_fits,
        direction_passes debug h.direction w.direction_valid,
        read_u32-be h.ep _ w.fields.ep_fits,
      )
      (ground arith)

-- Each body behind the version and the code.
devlist_body :
    (debug : Bool) (status : ℕ) (rest : List ℕ)
    → IsWellFormed debug (req_devlist status)
    → read_devlist debug (u32_be status ++ rest) ≡ ok (req_devlist status, rest)
unfolding read_devlist
devlist_body debug status rest w =
    rw (read_u32-be status _ w.0, status_passes debug status w.1) refl

import_body :
    (debug : Bool) (status : ℕ) (busid rest : List ℕ)
    → IsWellFormed debug (req_import status busid)
    → read_import debug (u32_be status ++ (busid ++ rest)) ≡ ok (req_import status busid, rest)
unfolding read_import
import_body debug status busid rest w =
    rw
      (
        read_u32-be status _ w.0,
        status_passes debug status w.1,
        read_exact-append 32 busid rest w.2,
      )
      refl

unlink_body :
    (debug : Bool) (h : HeaderBasic) (unlink_seqnum : ℕ) (rest : List ℕ)
    → IsWellFormed debug (cmd_unlink h unlink_seqnum)
    → read_unlink debug (header_tail h (u32_be unlink_seqnum ++ (replicate 24 0 ++ rest)))
      ≡ ok (cmd_unlink h unlink_seqnum, rest)
unfolding read_unlink
unlink_body debug h unlink_seqnum rest w =
    rw
      (
        header-tail debug usbip_cmd_unlink h _ w.0,
        read_u32-be unlink_seqnum _ w.1,
        read_exact-append 24 (replicate 24 0) rest refl,
      )
      refl

-- A part that is read only when a test says so.
part_or_none :
    (none_follows : Bool) (n : ℕ) (bs rest : List ℕ)
    → length bs ≡ (if none_follows then 0 else n)
    → (if none_follows then pure [] else read_exact n) (bs ++ rest) ≡ ok (bs, rest)
part_or_none true n [] rest e = refl
part_or_none true n (b ∷ bs) rest e = absurd (omega arith)
part_or_none false n bs rest e = read_exact-append n bs rest e

part_or_none' :
    (follows : Bool) (n : ℕ) (bs rest : List ℕ)
    → length bs ≡ (if follows then n else 0)
    → (if follows then read_exact n else pure []) (bs ++ rest) ≡ ok (bs, rest)
part_or_none' false n [] rest e = refl
part_or_none' false n (b ∷ bs) rest e = absurd (omega arith)
part_or_none' true n bs rest e = read_exact-append n bs rest e

data_part :
    (h : HeaderBasic) (s : Submit) (rest : List ℕ)
    → length s.payload ≡ payload_length h s
    → read_data h s.transfer_buffer_length (s.payload ++ rest) ≡ ok (s.payload, rest)
unfolding read_data payload_length
data_part h s rest e = part_or_none (h.direction == 1) _ s.payload rest e

iso_part :
    (s : Submit) (rest : List ℕ)
    → length s.iso_packet_descriptor ≡ iso_length s
    → read_iso s.number_of_packets (s.iso_packet_descriptor ++ rest)
      ≡ ok (s.iso_packet_descriptor, rest)
unfolding read_iso iso_length
iso_part s rest e =
    part_or_none' (not (s.number_of_packets == 0) && not (s.number_of_packets == 0xffff_ffff)) _
      s.iso_packet_descriptor rest e

submit_body :
    (debug : Bool) (h : HeaderBasic) (s : Submit) (rest : List ℕ)
    → IsWellFormed debug (cmd_submit h s)
    → read_submit debug
        (header_tail h (submit_fields s ++ (s.payload ++ (s.iso_packet_descriptor ++ rest))))
      ≡ ok (cmd_submit h s, rest)
unfolding read_submit submit_fields
submit_body debug h s rest (wh, w) = rw (header-tail debug usbip_cmd_submit h _ wh) (
    simp append_assoc (
      rw
        (
          read_u32-be s.transfer_flags _ w.transfer_flags_fits,
          read_u32-be s.transfer_buffer_length _ w.transfer_buffer_length_fits,
          read_u32-be s.start_frame _ w.start_frame_fits,
          read_u32-be s.number_of_packets _ w.number_of_packets_fits,
          read_u32-be s.interval _ w.interval_fits,
          read_exact-append 8 s.setup _ w.setup_length,
          data_part h s _ w.payload_fits,
          iso_part s rest w.iso_fits,
        )
        refl))

-- The first two words, which the header of a submit or of an unlink begins with too: the command
-- field of that header is a version 0 and the command code.
version_and_code :
    (debug : Bool) (version code : ℕ) (rest : List ℕ)
    → IsU16 version
    → IsU16 code
    → check_version version ≡ pure tt
    → read_from_socket debug (u16_be version ++ (u16_be code ++ rest)) ≡ read_body debug code rest
unfolding read_from_socket
version_and_code debug version code rest hv hc passes =
    rw (read_u16-be version _ hv, passes, read_u16-be code _ hc) refl

command_word : (code : ℕ) → code < 256 → u32_be code ≡ u16_be 0 ++ u16_be code
unfolding u32_be u16_be
command_word code h = ground arith

header_bytes :
    (code : ℕ) (h : HeaderBasic) (rest : List ℕ)
    → code < 256
    → h.command ≡ code
    → header_to_bytes h ++ rest ≡ u16_be 0 ++ (u16_be code ++ header_tail h rest)
unfolding header_to_bytes
header_bytes code h rest small e = rw (e, command_word code small) (simp append_assoc)

length_passes :
    (debug : Bool) (h : HeaderBasic) (s : Submit)
    → SubmitIsWellFormed h s
    → debug_assert debug
        (not (h.direction == 0) || s.transfer_buffer_length == length s.payload % 2 ^ 32)
      ≡ ok tt
unfolding payload_length
length_passes debug h s w = ground (arith, w.payload_fits, w.transfer_buffer_length_fits)

-- Every well-formed command is serialised, and the parser reads it back from the bytes written,
-- whatever follows them, and leaves what follows.
pub read-to_bytes :
    (debug : Bool) (c : Command) (rest : List ℕ)
    → IsWellFormed debug c
    → (bytes : List ℕ) × (command_to_bytes debug c ≡ ok bytes)
      × (read_from_socket debug (bytes ++ rest) ≡ ok (c, rest))
unfolding command_to_bytes read_body check_version
read-to_bytes debug (req_devlist status) rest w = (
  _,
  refl,
  simp append_assoc (
      rw (version_and_code debug usbip_version op_req_devlist _ (omega arith) (omega arith) refl)
        (devlist_body debug status rest w)),
)
read-to_bytes debug (req_import status busid) rest w = (
  _,
  refl,
  simp append_assoc (
      rw (version_and_code debug usbip_version op_req_import _ (omega arith) (omega arith) refl)
        (import_body debug status busid rest w)),
)
read-to_bytes debug (cmd_submit h s) rest w = (
  header_to_bytes h ++ (submit_fields s ++ (s.payload ++ s.iso_packet_descriptor)),
  rw (length_passes debug h s w.1),
  simp append_assoc (
      rw (header_bytes usbip_cmd_submit h _ (omega arith) w.0.code_fits) (
        rw (version_and_code debug 0 usbip_cmd_submit _ (omega arith) (omega arith) refl)
          (submit_body debug h s rest w))),
)
read-to_bytes debug (cmd_unlink h unlink_seqnum) rest w = (
  _,
  refl,
  simp append_assoc (
      rw (header_bytes usbip_cmd_unlink h _ (omega arith) w.0.code_fits) (
        rw (version_and_code debug 0 usbip_cmd_unlink _ (omega arith) (omega arith) refl)
          (unlink_body debug h unlink_seqnum rest w))),
)
