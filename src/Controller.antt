-- ===== src/Controller.antt =====
-- internal/controller/smolvm_controller.go
pub mod Conditions
pub mod Validation
pub mod Machine
pub mod Fit
pub mod Reconciler
pub mod Status
pub mod Schedule
pub mod Delete
pub mod Reconcile
pub mod Watch
pub mod Permitted
pub mod Serving
pub mod Placing
pub mod Progress
pub mod Converge
pub mod Guarantees
mod Tests
