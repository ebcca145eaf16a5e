-- ===== src/Dialogue.antt =====
-- internal/admin/admin.go, the parts of `wizard`: each asks for one part of a configuration.
pub mod Endpoints
pub mod Layer3
pub mod Services
pub mod Secret
