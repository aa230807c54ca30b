-- ===== src/Tests.antt =====
-- The theorems at concrete inputs, and runs of the definitions.
mod Lists
mod Maps
mod Loops
mod Packets
mod Protocol
mod Routing
mod Threads
mod Times
mod Traffic
mod Together
mod Starting
mod Prepared
