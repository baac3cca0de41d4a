-- ===== src/Admin.antt =====
-- The administrator's operations (product_api.go, runtime_settings.go).
pub mod Texts
pub mod Licenses
pub mod Profiles
pub mod RuntimeSettings
pub mod Wallets
