-- ===== src/Client.antt =====
-- py/akari/udp_client.py: the client that sends a request and gathers the answer.
pub mod Headers
pub mod Missing
pub mod Config
pub mod Exchange
pub mod Asking
pub mod Loop
pub mod RustBacked
pub mod Accumulator
