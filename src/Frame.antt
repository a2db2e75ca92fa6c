-- ===== src/Frame.antt =====
-- The frames on the wire: `FrontendUserSession::writeText` and `writeBinary`
-- (backend/src/backend/server/frontend_user_session.cpp), and `StreamerBase::writeMessage`
-- (worker/streaming/streamer_base.hpp).
pub mod Hex
pub mod Encode
pub mod RoundTrip
pub mod Tests
