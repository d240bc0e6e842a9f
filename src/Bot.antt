-- ===== src/Bot.antt =====
-- tools/telegram_bot: the billing database, the copy of the keys for the VPN server, and the worker
-- that ends subscriptions.
pub mod Access
pub mod State
pub mod Sync
pub mod Users
pub mod Subscriptions
pub mod Orders
pub mod Promocodes
pub mod Support
pub mod Worker
pub mod Commands
mod Tests
