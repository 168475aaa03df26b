-- ===== src/Service.antt =====
-- The 3D service (src/radeon3d_service.c): what a session may submit.
pub mod Batch
