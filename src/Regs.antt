-- ===== src/Regs.antt =====
-- Registers and their fields (src/radeon_regs.h), by the part of the card.
pub mod Display
pub mod Panel
pub mod Clock
pub mod Blocks
pub mod Engine
pub mod Post
