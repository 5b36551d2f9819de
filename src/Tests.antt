-- ===== src/Tests.antt =====
-- The theorems at concrete data, with concrete functions for what the program does not implement.
mod Demo
mod Machine
mod Slots
mod Plain
mod Setup
mod Watch
mod Start
mod Addresses
mod Resources
mod Interfaces
mod Node
mod Rendering
mod Accepted
mod Joint
mod Again
mod Peers
mod Up
mod Nic
mod Shelf
pub mod Listing
pub mod Rack
mod Removal
mod Copying
