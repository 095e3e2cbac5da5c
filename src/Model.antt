-- ===== src/Model.antt =====
-- The data that the parts of the proxy exchange: internal/model.
pub mod Json
pub mod Types
pub mod Mapping
