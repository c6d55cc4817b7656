-- ===== src/Tests.antt =====
-- The theorems at concrete inputs: each of these evaluates the code on a request, a directory or a
-- log that it can meet.
mod Toy
mod Tokens
mod Paths
mod Texts
mod Decisions
mod Trails
mod Handlers
mod Watching
mod Guarded
mod Lints
mod Literals
mod Starting
mod Running
pub mod Source
