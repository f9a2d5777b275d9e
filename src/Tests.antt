-- ===== src/Tests.antt =====
-- The theorems at concrete inputs, over the rational numbers.
mod Data
mod Money
mod Orders
mod Market
mod Stocks
mod Feed
mod Desk
mod Thread
mod Process
mod Window
mod Terminal
mod Broker
mod Offline
