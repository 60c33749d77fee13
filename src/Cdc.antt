-- ===== src/Cdc.antt =====
-- The package cdc: its store (cdc/store.go).
pub mod Store
