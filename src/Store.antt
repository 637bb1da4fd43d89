-- ===== src/Store.antt =====
-- crates/laya-store/src/store.rs and src/keys.rs: the operations of `MoonStore`. The server is not
-- part of the repository: it enters as a `Server`, and what the code relies on as `IsServer`.
pub mod Keys
pub mod Codec
pub mod Server
pub mod Frequencies
pub mod Pipeline
pub mod Write
pub mod Read
mod Runs
mod Untouched
mod Written
mod Stored
mod Trips
mod RoundTrip
mod Matched
mod Ranked
mod Memory
mod Tests
