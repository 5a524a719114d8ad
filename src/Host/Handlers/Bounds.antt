-- ===== src/Host/Handlers/Bounds.antt =====
-- How many bytes the handler of an interface of src/host.rs gives back, if the USB library gives no more than it
-- is asked for.
use nusbip.Common.{ℕ, ◌==◌, if◌then◌else◌}
use nusbip.Endpoint.{UsbEndpoint}
use nusbip.Setup.{SetupPacket}
use nusbip.Host.Effects.{◌>>=◌}

-- The bound for an endpoint: `wLength` for a control transfer, and the length of the request for an
-- interrupt or a bulk transfer.
abbrev pub handler_limit : UsbEndpoint → ℕ → SetupPacket → ℕ
handler_limit ep n setup =
    if ep.attributes == 0
    then setup.length
    else if ep.attributes == 3
    then n
    else if ep.attributes == 2
    then n
    else 0
