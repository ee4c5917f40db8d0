-- ===== src/Middleware.antt =====
-- The modules of src/middleware.
pub mod ModbusRtu
pub mod UdsSvcSec
pub mod Uds
pub mod UdsSvcTransfer
pub mod UdsServer
pub mod CanBus
pub mod CanIsotp
pub mod UdsSvcSession
