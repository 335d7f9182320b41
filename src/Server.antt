-- ===== src/Server.antt =====
-- src/server: the server, its objects and its requests.
pub mod Memory
pub mod State
pub mod Topic
pub mod Requests
pub mod Invariant
pub mod Directory
pub mod Sending
pub mod Heartbeat
pub mod Dispatch
pub mod CommandLine
pub mod Threads
pub mod Program
pub mod Schedule
