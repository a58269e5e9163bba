-- ===== src/Machine/Macro.antt =====
-- Masks, bits and codes that TIpcieLib.h names by `#define TIP_…`.
mod Masks
mod Fields
mod Codes
pub use Masks.*
pub use Fields.*
pub use Codes.*
