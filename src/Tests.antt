-- ===== src/Tests.antt =====
-- Tests of the models and the theorems at concrete inputs.
pub mod Books
mod Pools
mod Priorities
mod Messages
mod Requests
mod Rings
mod Controllers
mod Bodies
mod Tasks
mod Sockets
mod Stops
mod Queries
mod Values
mod Texts
pub mod Sites
mod Strings
mod Threads
pub mod Streams
mod Samples
