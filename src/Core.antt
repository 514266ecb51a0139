-- ===== src/Core.antt =====
-- crates/core: the constants, the error type, the data types and the device configuration that every
-- other crate uses. The resource metrics (metrics.rs) hold floats and no operations.
pub mod Constants
pub mod Error
pub mod Types
pub mod Device
