-- ===== src/Tests.antt =====
-- Requests on a small registry, and the theorems at them.
pub mod Demo
pub mod Runs
pub mod Laws
pub mod Requests
pub mod Texts
pub mod Renderings
pub mod Clients
pub mod Deployments
pub mod Tables
pub mod Rules
