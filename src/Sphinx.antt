-- ===== src/Sphinx.antt =====
-- sphinx/: the packet format.
pub mod Library
pub mod Crypto
pub mod Curve
pub mod Packing
pub mod Fillers
pub mod Processing
pub mod Primitives
pub mod Secrets
pub mod Onion
pub mod Routes
pub mod Steps
pub mod Delivery
pub mod Integrity
