-- ===== src/Controller.antt =====
-- internal/controller: the reconciliation of a node.
pub mod Pod
pub mod Node
pub mod Manager
pub mod Reconcile
