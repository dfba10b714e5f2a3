-- ===== src/Worker.antt =====
-- cloudflare-registry/src/index.js: the routes. The handlers stand in the children.
pub mod Reply
pub mod Register
pub mod Subscription
pub mod Nodes
pub mod Admin
pub mod Route
pub mod Frames
pub mod Writes
pub mod Access
pub mod Effects
pub mod Outcome
pub mod Deletion
pub mod Safety
pub mod Status
pub mod Privacy
pub mod Success
pub mod Storage
pub mod Delivery
pub mod Creation
pub mod Gate
pub mod Runs
