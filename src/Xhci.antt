-- ===== src/Xhci.antt =====
-- kernel/xhci.c and kernel/xhci_trb.c: the transfer request blocks and the rings that carry them.
pub mod Trb
pub mod Ring
pub mod Events
pub mod Ports
pub mod Endpoint
pub mod Slot
pub mod Start
pub mod Configure
pub mod Dispatch
mod Tests
mod PortTests
mod EventTests
mod StartTests
