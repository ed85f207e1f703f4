-- ===== src/Gateway.antt =====
-- apps/api-gateway: the live gateway.
pub mod Exceptions
pub mod Names
pub mod Tables
pub mod Engine
pub mod Settings
pub mod Timers
pub mod Bridge
pub mod LongTurn
pub mod Content
pub mod Orchestrator
pub mod Relay
pub mod Accounts
pub mod Sessions
pub mod InternalDebug
