-- ===== src/Tests.antt =====
-- The theorems applied at concrete inputs, and runs of the model.
mod Server
mod Fixtures
mod Client
mod Recovery
mod WebProxy
mod Network
mod Site
mod Browsing
mod Processes
mod Rewriting
