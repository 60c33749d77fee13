-- ===== src/Entity.antt =====
-- The package entity: filters (entity.go), validation (validate.go) and the store (store.go).
pub mod Validate
pub mod Filter
pub mod Store
mod Tests
