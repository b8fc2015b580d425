-- ===== src/Examples.antt =====
-- Concrete resources, tables and requests, and what the theorems say of them.
pub mod Data
pub mod Api
pub mod Routes
pub mod Extproc
pub mod Webhook
pub mod ConfigMaps
pub mod Reconciler
pub mod K8sLoader
