-- ===== src/Tests.antt =====
-- Witnesses on concrete inputs: no module of the repository.
mod Samples
mod Toys
mod Handshakes
mod Tcp
mod Wire
mod Cipher
mod Windows
mod Sessions
mod Application
mod Routing
