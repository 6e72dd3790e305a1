-- ===== src/Tests.antt =====
-- The theorems at concrete inputs, and runs of the code.
mod Types
mod Session
mod Send
mod Cell
mod Address
mod KeyHistory
mod DeepLink
mod Engine
