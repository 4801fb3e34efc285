-- ===== src/Bootiso.antt =====
-- pkg/bootiso/bootiso.go.
pub mod Image
pub mod Parse
pub mod Custom
pub mod Boot
pub mod Checksum
