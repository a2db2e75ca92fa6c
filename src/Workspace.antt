-- ===== src/Workspace.antt =====
-- backend/src/backend/server/api/workspace.cpp: the requests that open a workspace and work on its
-- files.
pub mod Verify
pub mod Requests
pub mod Refusals
pub mod Escapes
pub mod Tests
