-- ===== src/Number.antt =====
-- The numbers that the program computes with, as an interface, and a type that meets its laws.
mod Interface
pub mod Order
pub mod Fixed
pub use Interface.*
