-- ===== src/Cdc.antt =====
-- src/cdc.rs: a serial port (CDC ACM) that is simulated.
pub mod Stream
use nusbip.Common.{ℕ, List, [], ◌∷◌, ◌==◌, if◌then◌else◌, Outcome, ok}
use nusbip.Consts.{interrupt, bulk, attributes_code}
use nusbip.Endpoint.{UsbEndpoint, Direction, in_dir, out_dir, direction}

pub record CdcAcm : Type 0 where
  pub tx_buffer : List ℕ

-- `UsbCdcAcmHandler::new`.
unfoldable pub new_cdc : CdcAcm
new_cdc = record { tx_buffer = [] }

-- `UsbCdcAcmHandler::endpoints`: state notification, bulk in, bulk out.
unfoldable pub cdc_endpoints : List UsbEndpoint
unfolding attributes_code
cdc_endpoints =
    record {
      address = 0x81;
      attributes = attributes_code interrupt;
      max_packet_size = 0x08;
      interval = 10;
    }
    ∷ record {
      address = 0x82;
      attributes = attributes_code bulk;
      max_packet_size = 512;
      interval = 0;
    }
    ∷ record {
      address = 0x02;
      attributes = attributes_code bulk;
      max_packet_size = 512;
      interval = 0;
    }
    ∷ []

-- `handle_urb`: of all requests, only a bulk IN has a reply that is not empty, the whole buffer. Data
-- that is sent out is logged and dropped.
unfoldable pub cdc_urb : UsbEndpoint → List ℕ → CdcAcm → Outcome (List ℕ) × CdcAcm
unfolding attributes_code
cdc_urb ep req c =
    if ep.attributes == attributes_code interrupt then (ok [], c) else elim (direction ep) [
      | out_dir ↦ (ok [], c)
      | in_dir ↦ (ok c.tx_buffer, record c { tx_buffer = [] })
    ]

-- `get_class_specific_descriptor`.
unfoldable pub cdc_class_descriptor : List ℕ
cdc_class_descriptor = 0x05 ∷ 0x24 ∷ 0x00 ∷ 0x10 ∷ 0x01 ∷ 0x04 ∷ 0x24 ∷ 0x02 ∷ 0x00 ∷ []
