-- ===== src/Text.antt =====
-- `std::string` as a list of bytes: the operations of the standard library that the sources use.
mod Ops
mod Find
pub use Ops.*
unfoldable pub use Ops.{◌≈◌, substr, substr_from}
pub use Find.*
unfoldable pub use Find.{find, find_at, starts_with}
