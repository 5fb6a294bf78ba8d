-- ===== src/ServerApi.antt =====
-- server/api: the HTTP handlers of the gateway. The user's identity and BindJSON's result, `none` for
-- an error, are arguments.
pub mod Accounts
pub mod Groups
pub mod Social
mod Tests
