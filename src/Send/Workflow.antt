-- ===== src/Send/Workflow.antt =====
-- The pure send reducer (src/wallet/send.rs, `SendWorkflow`). A method on `&mut self` is a step: it
-- gives the state after it, also where it returns an error.
pub mod Steps
pub mod Checks
pub mod Reducer
pub mod Invariant
pub mod Reach
