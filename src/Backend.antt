-- ===== src/Backend.antt =====
-- The sign-in of backend_service_layer/main.py.
pub mod Siwe
pub mod SiweLaws
mod Tests
