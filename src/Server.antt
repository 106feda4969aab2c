-- ===== src/Server.antt =====
-- backend/server: the handlers of the HTTP API, as functions of the decoded request. A refusal is
-- the field and the message of a response with status 422.
pub mod Monitors
pub mod Checkin
pub mod Auth
