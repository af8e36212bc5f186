-- ===== src/Http.antt =====
-- net/Http: messages, the parser of requests, and the server between a connection and the user's
-- callback.
pub mod Request
pub mod Response
pub mod Reader
pub mod Context
pub mod Server
pub mod Tests
