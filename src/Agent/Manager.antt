-- ===== src/Agent/Manager.antt =====
-- crates/agent/src/container.rs: `ContainerManager`. Its names are those of three children.
mod State
mod Create
mod Ops
unfoldable pub use State.*
unfoldable pub use Create.*
unfoldable pub use Ops.*
