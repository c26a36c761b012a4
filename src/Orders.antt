-- ===== src/Orders.antt =====
-- Orders and their tasks (src/orders/store.mjs, src/workflow/order-task-runtime.mjs).
mod Examples
pub mod Spec
pub mod Input
pub mod Lifecycle
pub mod Runtime
pub mod Actions
pub mod Store
