-- ===== src/Stage.antt =====
-- stage/plan.go: the release of a leased tool plan, and the decorators of a dispatcher.
pub mod Release
pub mod Decorators
pub mod Nesting
mod Examples
