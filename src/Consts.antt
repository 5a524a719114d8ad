-- ===== src/Consts.antt =====
-- src/consts.rs: the numbers of the USB standard that the program uses, and their decoding by
-- `FromPrimitive`.
use nusbip.Common.{ℕ, Option, none, some, ◌==◌, if◌then◌else◌}

pub data EndpointAttributes : Type 0 where
  control isochronous bulk interrupt : EndpointAttributes

unfoldable pub attributes_code : EndpointAttributes → ℕ
attributes_code control = 0
attributes_code isochronous = 1
attributes_code bulk = 2
attributes_code interrupt = 3

unfoldable pub attributes_from : ℕ → Option EndpointAttributes
attributes_from n =
    if n == 0
    then some control
    else if n == 1
    then some isochronous
    else if n == 2
    then some bulk
    else if n == 3
    then some interrupt
    else none

pub data StandardRequest : Type 0 where
  get_status clear_feature set_feature set_address get_descriptor : StandardRequest
  set_descriptor get_configuration set_configuration get_interface : StandardRequest
  set_interface synch_frame : StandardRequest

unfoldable pub request_from : ℕ → Option StandardRequest
request_from n =
    if n == 0
    then some get_status
    else if n == 1
    then some clear_feature
    else if n == 3
    then some set_feature
    else if n == 5
    then some set_address
    else if n == 6
    then some get_descriptor
    else if n == 7
    then some set_descriptor
    else if n == 8
    then some get_configuration
    else if n == 9
    then some set_configuration
    else if n == 10
    then some get_interface
    else if n == 11
    then some set_interface
    else if n == 12
    then some synch_frame
    else none

pub data DescriptorType : Type 0 where
  device configuration string interface endpoint device_qualifier : DescriptorType
  other_speed_configuration interface_power otg debug interface_association : DescriptorType
  bos device_capability superspeed_usb_endpoint_companion : DescriptorType

unfoldable pub descriptor_code : DescriptorType → ℕ
descriptor_code device = 1
descriptor_code configuration = 2
descriptor_code string = 3
descriptor_code interface = 4
descriptor_code endpoint = 5
descriptor_code device_qualifier = 6
descriptor_code other_speed_configuration = 7
descriptor_code interface_power = 8
descriptor_code otg = 9
descriptor_code debug = 10
descriptor_code interface_association = 11
descriptor_code bos = 15
descriptor_code device_capability = 16
descriptor_code superspeed_usb_endpoint_companion = 0x30

unfoldable pub descriptor_from : ℕ → Option DescriptorType
descriptor_from n =
    if n == 1
    then some device
    else if n == 2
    then some configuration
    else if n == 3
    then some string
    else if n == 4
    then some interface
    else if n == 5
    then some endpoint
    else if n == 6
    then some device_qualifier
    else if n == 7
    then some other_speed_configuration
    else if n == 8
    then some interface_power
    else if n == 9
    then some otg
    else if n == 10
    then some debug
    else if n == 11
    then some interface_association
    else if n == 15
    then some bos
    else if n == 16
    then some device_capability
    else if n == 0x30
    then some superspeed_usb_endpoint_companion
    else none

pub data UsbSpeed : Type 0 where
  unknown low full high wireless super super_plus : UsbSpeed

unfoldable pub speed_code : UsbSpeed → ℕ
speed_code unknown = 0
speed_code low = 1
speed_code full = 2
speed_code high = 3
speed_code wireless = 4
speed_code super = 5
speed_code super_plus = 6

unfoldable pub ep0_max_packet_size : ℕ
ep0_max_packet_size = 64
