-- ===== src/Examples.antt =====
-- The theorems at concrete inputs, and runs of the definitions.
mod Leasing
mod Scheduling
mod Serving
mod Chunks
mod Filing
mod Halting
mod Prompting
mod Coordinating
mod Streaming
mod Deploying
mod Messaging
mod Bodies
mod Supervising
