-- ===== src/Face.antt =====
-- internal/faceclient/client.go: the client of the face recognition service.
pub mod Types
pub mod Mocks
pub mod Client
pub mod Outcome
mod Tests
