-- ===== src/Handler.antt =====
-- py/akari/remote_proxy/handler.py: from a request to the datagrams of its answer.
pub mod Sizes
pub mod Split
pub mod Headers
pub mod State
pub mod Respond
pub mod Nack
pub mod HttpCache
pub mod Requests
