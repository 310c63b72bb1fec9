-- ===== src/Thunk/Update.antt =====
-- `Thunk::update_data`: the dependency on an output is renamed, in the data and in the arguments.
pub mod Replace
pub mod Reinsert
pub mod Rename
pub mod Cached
