-- ===== src/Tests.antt =====
-- Concrete inputs for the theorems.
mod Sample
mod Thunks
mod Graphs
mod Jobs
mod Wires
mod Responses
mod Engines
mod Compilers
mod Files
