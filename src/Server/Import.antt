-- ===== src/Server/Import.antt =====
-- The handlers of src/lib.rs for the two requests about devices.
use nusbip.Common.{
  ℕ, List, [], ◌∷◌, Option, none, some, ◌==◌, if◌then◌else◌, Outcome, ok, err, invalid_bus_id,
}
use nusbip.Device.{UsbDevice}
use nusbip.Response.{Response, op_rep_devlist_response, op_rep_import_success, op_rep_import_fail}
use nusbip.Server.{Server, occupy, release}
use nusbip.Server.Utf8.{is_utf8}

-- `&busid[..busid.iter().position(|&x| x == 0).unwrap_or(busid.len())]`.
unfoldable pub trimmed : List ℕ → List ℕ
trimmed [] = []
trimmed (b ∷ bs) = if b == 0 then [] else b ∷ trimmed bs

-- `UsbIpServer::handle_op_req_devlist`.
unfoldable pub handle_op_req_devlist : Server → Outcome Response
handle_op_req_devlist s = ok (op_rep_devlist_response s.available)

-- The device of the connection, if any, goes back to the server.
unfoldable pub give_back : Option UsbDevice → Server → Server
give_back none s = s
give_back (some d) s = release d s

-- What the connection gets for an attempt to occupy a device.
unfoldable pub import_reply : Outcome UsbDevice → Outcome Response × Option UsbDevice
import_reply (ok d) = (ok (op_rep_import_success d), some d)
import_reply _ = (ok op_rep_import_fail, none)

-- `UsbIpServer::handle_op_req_import`: the reply, the device of the connection, the server.
unfoldable pub handle_op_req_import :
    List ℕ → Option UsbDevice → Server → Outcome Response × Option UsbDevice × Server
unfolding trimmed give_back import_reply
handle_op_req_import busid imported s =
    if is_utf8 (trimmed busid)
    then (let (result, s') = occupy (trimmed busid) (give_back imported s) in
        let (reply, imported') = import_reply result in (reply, imported', s'))
    else (err (invalid_bus_id busid), imported, s)
