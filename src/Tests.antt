-- ===== src/Tests.antt =====
-- Concrete tables, ports and packets, and the theorems on them.
mod Data
mod Table
mod Ports
mod Sides
mod Packets
mod Classify
mod Commands
mod Flushes
mod Parser
mod Mirrors
