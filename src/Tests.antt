-- ===== src/Tests.antt =====
-- Concrete inputs for the theorems, and runs of the model on them. Each module is about the code of
-- the module with its name.
pub mod Identity
pub mod Package
mod Apply
mod Audit
mod Writer
mod Engine
mod Operations
mod Isbn
mod Rules
mod Lease
