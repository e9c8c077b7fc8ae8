-- ===== src/Cloud.antt =====
-- internal/cloud: what the agent, the relay and the web side keep in Firestore.
pub mod Store
pub mod Push
pub mod Pairing
pub mod Grant
pub mod Registry
pub mod Reconcile
pub mod Commands
pub mod Restart
