-- ===== src/Serialization.antt =====
-- The payloads of the messages: include/common/serialization.h and src/common/serialization.cpp, a
-- module for each of its types.
pub mod Strings
pub mod Player
pub mod Update
pub mod Chat
pub mod Role
pub mod Vote
pub mod Safety
mod Runs
