-- ===== src/Router.antt =====
-- py/akari/web_proxy/router.py: how the web proxy reads its parameters, and `_execute_proxy` up to
-- the shaping of the response.
pub mod Parameters
pub mod Proxy
pub mod Ids
pub mod Responses
pub mod Links
pub mod Static
pub mod Rewriting
pub mod Shaping
pub mod Settings
pub mod Site
pub mod Front
