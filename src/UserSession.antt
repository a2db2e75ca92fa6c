-- ===== src/UserSession.antt =====
-- backend/src/backend/server/frontend_user_session.cpp and api/user.cpp: what a connected client
-- can make happen.
pub mod Plugins
pub mod Handlers
pub mod Isolation
pub mod History
pub mod Tests
