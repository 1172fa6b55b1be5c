-- ===== src/Handler.antt =====
-- include/talon/async_io_handler.hpp: the event loop, submission and dispatch.
pub mod World
pub mod UserData
pub mod Submit
pub mod Dispatch
pub mod Gate
pub mod Accept
pub mod Completion
pub mod Retry
pub mod Again
pub mod Success
pub mod Repeat
pub mod Failure
pub mod Expiry
pub mod Reject
pub mod Full
pub mod Chain
pub mod EndToEnd
pub mod Threads
pub mod Process
pub mod Queries
