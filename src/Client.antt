-- ===== src/Client.antt =====
-- util/client.py: the IRC protocol instance, in its parts that keep state of their own.
pub mod Throttle
pub mod Masks
pub mod Protocol
pub mod Status
pub mod Lists
pub mod Login
pub mod Sending
pub mod Tags
