-- ===== src/Lib.antt =====
-- A model of the USB/IP server in src/ of the repository, and what is proved of it.
--
-- The program exports USB devices over TCP. A connection sends commands; the server answers with a
-- list of devices, lets the connection import one, and passes its requests on to that device: it
-- answers requests for descriptors itself and hands all others to a device of the host. The parts:
--
-- - Common: results of a call (a value, an error, a panic, no end), words of two and four bytes,
--   Boolean tests, lists over native numbers.
-- - Consts, Setup, Endpoint, Verify: src/consts.rs, src/setup.rs, src/endpoint.rs with
--   src/interface.rs, and `verify_descriptor` of src/util.rs.
-- - Protocol: `UsbIpHeaderBasic` and `UsbIpCommand` of src/usbip_protocol.rs. Protocol/Input has the
--   reads of a socket, Protocol/Header the header, Protocol/Command the commands and
--   `UsbIpCommand::to_bytes`, Protocol/Read `UsbIpCommand::read_from_socket`, Protocol/WellFormed the
--   commands that are proper, Protocol/Requests the tests of a setup packet.
-- - Response: `UsbIpResponse` of src/usbip_protocol.rs.
-- - Device: src/device.rs. Device/Pool and Device/Names have the strings, Device/Bytes the wire form,
--   Device/Descriptors the descriptors, Device/Urb `UsbDevice::handle_urb`,
--   Device/Text the text that a host reads from the descriptor of a string.
-- - Host: `handle_urb_for_interface` and `handle_urb_for_device` of src/host.rs. Host/Effects has the
--   calls of the USB library nusb, which is a parameter, and Host/Bus those that find and open devices.
--   Host/Handlers has the handler objects of that file, with the mutex of a device. Host/Bounds has what
--   is assumed of the lengths that nusb gives back, and Host/Calls which calls are about which handle. Host/Handlers/Bounds has how
--   much the handler of an interface gives back.
-- - Server: `UsbIpServer` of src/lib.rs. Server/Devices has the searches in a list of devices,
--   Server/Refines a state for each bus id over rows of operations, Server/Utf8 `str::from_utf8`,
--   Server/Import and Server/Submit the handlers of a command.
-- - Handler: `handler` and the task of a connection in `server`, of src/lib.rs. Handler/Runs has a run
--   of commands that are not on the wire, against which `handler` is compared.
-- - Export: `with_nusb_devices`, `new_from_host` and `new_from_host_with_filter` of src/lib.rs, which
--   make a server from the devices of the host. Export/Path has the bus id of such a device,
--   Export/Claims what is claimed of it, and Export/Shows what the server shows of it.
-- - Hid, Cdc: the simulated keyboard of src/hid.rs and the simulated serial port of src/cdc.rs.
-- - Locks: the locks of the two lists of `UsbIpServer`, which its operations take one after the other.
-- - Linear: the same operations lock by lock, with their effects on the lists, as turns of tasks.
--   Linear/Whole has runs of whole operations, against which the turns are compared.
-- - Sessions: several connections on one server, as a relation of steps.
-- - Service: `server` of src/lib.rs. A step of a task is one round of the loop of `handler` on its own
--   input, the end of the task, or a call of the program; the server is shared by all tasks.
-- - Program: src/main.rs, from the export of the mass storage devices to the cleanup at the end.
--   examples/host.rs is the same program.
-- - Tests: runs of the theorems on concrete inputs.
-- - Units: the unit tests of the repository, evaluated on the model in a debug build.
--
-- Correspondence. A struct is a record with the same fields, an enum a data type. Numbers are
-- natural numbers, and wrap-around and overflow are written out. A definition that differs between a
-- debug and a release build takes a Boolean `debug`: a debug assertion or an overflow in arithmetic
-- panics if it is true. Errors of `std::io` are values with a kind. A socket is the bytes to come
-- and the bytes written. A call of nusb gets its answer from a parameter, which may depend on all
-- calls before.
--
-- Fuel. The loop of `new_string` has 256 rounds: after as many, each index of a byte was tried, and
-- the loop goes on for ever. The loop of `verify_descriptor` has a round for each byte and one
-- more. The loop of `handler` has a round for each byte to come and one more, since a command has
-- eight bytes at least.
--
-- Not modelled: the accept loop, logging, timeouts and serde, which are input and output or code of
-- libraries; platforms other than Linux; the enumerations of class codes and transfer flags in
-- src/consts.rs, which no code uses. Of the calls of nusb, their timeouts, the sizes of readers and
-- writers and `with_num_transfers(1)`, which are constants, are left out, and so is the buffer that
-- a handler of an interface allocates for every transfer, but as what is read into. Locks and Linear
-- leave out the queue of a `RwLock`. In Linear a lock for reading is taken and given up in one turn.
-- Outside of these two an operation on the lists is one step.
pub mod Common
pub mod Consts
pub mod Setup
pub mod Protocol
pub mod Endpoint
pub mod Device
pub mod Response
pub mod Server
pub mod Sessions
pub mod Host
pub mod Handler
pub mod Verify
pub mod Tests
pub mod Units
pub mod Hid
pub mod Cdc
pub mod Export
pub mod Locks
pub mod Linear
pub mod Service
pub mod Program
