-- ===== src/Wire.antt =====
-- The wire protocol of the VCI tunnel (vci_proxy/protocol.py): packing, frames, and the bodies of
-- every request and response.
pub mod Pack
pub mod Frame
pub mod Fixed
pub mod Requests
pub mod Responses
pub mod Messages
pub mod Filters
pub mod Ioctl
pub mod Auth
pub mod Text
pub mod Tests
