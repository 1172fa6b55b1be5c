-- ===== src/Tests.antt =====
-- Runs of the models at concrete inputs.
mod Setup
mod Submission
mod Completions
mod Chained
mod EndToEnd
mod Waiting
mod Stacks
mod SharedPool
mod Pools
mod Buffers
mod Callables
mod Handlers
mod Interleavings
mod Processes
mod Sockets
