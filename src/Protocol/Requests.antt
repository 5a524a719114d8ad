-- ===== src/Protocol/Requests.antt =====
-- The tests of a setup packet in src/usbip_protocol.rs.
use nusbip.Common.{
  ℕ, ◌+◌, ◌≤◌, ◌*◌, ◌^◌, List, Bool, true, false, ◌&&◌, ◌==◌, bit_or, if◌then◌else◌, ◌≡◌, arith,
}
use nusbip.Consts.{request_from}
use nusbip.Setup.{SetupPacket, parse}
use nusbip.Device.Urb.{is_set_configuration}

abbrev pub usb_port_feat_reset : ℕ
usb_port_feat_reset = 0x04

abbrev pub usb_req_set_feature : ℕ
usb_req_set_feature = 0x03

abbrev pub usb_type_class : ℕ
usb_type_class = 0x01 * 2 ^ 5

abbrev pub usb_recip_other : ℕ
usb_recip_other = 0x03

abbrev pub usb_rt_port : ℕ
usb_rt_port = bit_or usb_type_class usb_recip_other

abbrev pub usb_req_clear_feature : ℕ
usb_req_clear_feature = 0x01

abbrev pub usb_recip_endpoint : ℕ
usb_recip_endpoint = 0x02

abbrev pub usb_endpoint_halt : ℕ
usb_endpoint_halt = 0

abbrev pub usb_req_set_interface : ℕ
usb_req_set_interface = 0x0b

abbrev pub usb_recip_interface : ℕ
usb_recip_interface = 0x01

abbrev pub usb_req_set_configuration : ℕ
usb_req_set_configuration = 0x09

abbrev pub usb_recip_device : ℕ
usb_recip_device = 0

unfoldable pub is_reset_device_cmd : List ℕ → Bool
is_reset_device_cmd setup =
    let sp = parse setup in
    if sp.request == usb_req_set_feature
      && sp.request_type == usb_rt_port
      && sp.value == usb_port_feat_reset
    then true
    else false

unfoldable pub is_clear_halt_cmd : List ℕ → Bool
is_clear_halt_cmd setup =
    let sp = parse setup in
    sp.request == usb_req_clear_feature
    && sp.request_type == usb_recip_endpoint
    && sp.value == usb_endpoint_halt

unfoldable pub is_set_interface_cmd : List ℕ → Bool
is_set_interface_cmd setup =
    let sp = parse setup in
    sp.request == usb_req_set_interface && sp.request_type == usb_recip_interface

unfoldable pub is_set_configuration_cmd : SetupPacket → Bool
is_set_configuration_cmd sp =
    sp.request == usb_req_set_configuration && sp.request_type == usb_recip_device

-- How many of the tests accept a packet.
abbrev pub accepted : List ℕ → ℕ
accepted setup =
    (if is_reset_device_cmd setup then 1 else 0)
    + (if is_clear_halt_cmd setup then 1 else 0)
    + (if is_set_interface_cmd setup then 1 else 0)
    + (if is_set_configuration_cmd (parse setup) then 1 else 0)

-- The four tests exclude each other, and the one for SET_CONFIGURATION is the test that
-- `UsbDevice::handle_urb` makes by its match.
pub requests_lem :
    (setup : List ℕ)
    → (accepted setup ≤ 1)
      × (is_set_configuration (parse setup) (request_from (parse setup).request)
          ≡ is_set_configuration_cmd (parse setup))
unfolding is_reset_device_cmd is_clear_halt_cmd is_set_interface_cmd is_set_configuration_cmd
    is_set_configuration request_from
requests_lem setup = ground arith
