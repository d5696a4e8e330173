-- ===== src/Examples.antt =====
-- Concrete libraries, networks and states, and the theorems applied to them.
mod Codecs
mod Packets
mod Forms
mod Toy
mod Routes
mod Parties
mod Mail
mod Nodes
mod Streams
mod Requests
mod Sessions
mod Traffic
mod Machines
mod Programs
mod Toml
mod Setups
