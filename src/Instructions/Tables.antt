-- ===== src/Instructions/Tables.antt =====
-- The structs of common/eInstructions.h, grouped by what they are about.
pub mod Account
pub mod Device
pub mod Model
pub mod Config
pub mod Files
pub mod Net
