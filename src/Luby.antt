-- ===== src/Luby.antt =====
-- core_modules/blackbox_modules/luby.py: the LT code that splits an image into chunks.
pub mod Graph
pub mod Block
pub mod Prng
pub mod Codec
pub mod Verify
mod Witnesses
