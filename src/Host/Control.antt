-- ===== src/Host/Control.antt =====
-- The control requests of src/host.rs, decoded from a SETUP packet.
use nusbip.Common.{ℕ, ◌/◌, ◌^◌, List, ◌==◌, if◌then◌else◌, bit_and, Outcome, ok, panic}
use nusbip.Setup.{SetupPacket}

pub data ControlType : Type 0 where
  standard class vendor : ControlType

pub data Recipient : Type 0 where
  to_device to_interface to_endpoint to_other : Recipient

pub record ControlIn : Type 0 where
  pub control_type : ControlType
  pub recipient : Recipient
  pub request : ℕ
  pub value : ℕ
  pub index : ℕ
  pub length : ℕ

pub record ControlOut : Type 0 where
  pub control_type : ControlType
  pub recipient : Recipient
  pub request : ℕ
  pub value : ℕ
  pub index : ℕ
  pub payload : List ℕ

-- `match (setup.request_type >> 5) & 0b11`.
unfoldable pub control_type : SetupPacket → Outcome ControlType
control_type setup =
    let kind = bit_and (setup.request_type / 2 ^ 5) 3 in
    if kind == 0
    then ok standard
    else if kind == 1
    then ok class
    else if kind == 2
    then ok vendor
    else panic

-- `match setup.request_type & 0b11111`.
unfoldable pub recipient : SetupPacket → Outcome Recipient
recipient setup =
    let to = bit_and setup.request_type 0x1f in
    if to == 0
    then ok to_device
    else if to == 1
    then ok to_interface
    else if to == 2
    then ok to_endpoint
    else if to == 3
    then ok to_other
    else panic

unfoldable pub control_in_of : ControlType → Recipient → SetupPacket → ControlIn
control_in_of kind to setup = record {
  control_type = kind;
  recipient = to;
  request = setup.request;
  value = setup.value;
  index = setup.index;
  length = setup.length;
}

unfoldable pub control_out_of : ControlType → Recipient → SetupPacket → List ℕ → ControlOut
control_out_of kind to setup payload = record {
  control_type = kind;
  recipient = to;
  request = setup.request;
  value = setup.value;
  index = setup.index;
  payload = payload;
}
