-- ===== src/Examples.antt =====
-- The theorems at concrete inputs, and the parameters that the examples use.
mod Codec
mod Notes
mod Players
mod Prints
mod Buffers
mod Workers
mod Starts
mod Clients
mod Daemons
mod Threads
mod Loads
mod Nodes
mod Failures
mod Transports
mod Messengers
mod Inspections
