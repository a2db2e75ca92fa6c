-- ===== src/Router.antt =====
-- worker/routers/workspace.cpp: the requests of a client about its workspace.
pub mod Paths
pub mod Toggle
pub mod Extensions
pub mod Handler
pub mod Requests
pub mod FileRequests
pub mod Keeps
pub mod Triples
pub mod Isolation
pub mod Clients
pub mod Delivery
pub mod DeliveryTests
pub mod SaveFile
pub mod Saved
pub mod Tests
