-- ===== src/Session.antt =====
-- The post-auth channel and request multiplexer (lib/session).
pub mod Config
pub mod Message
pub mod Error
pub mod Channel
pub mod State
pub mod Budget
pub mod Accounts
pub mod Registry
pub mod Validate
pub mod Outbound
pub mod Shutdown
pub mod Flow
pub mod Lifecycle
pub mod Requests
pub mod Globals
pub mod Opening
pub mod Loops
pub mod System
pub mod Preserve
pub mod Table
pub mod Sample
