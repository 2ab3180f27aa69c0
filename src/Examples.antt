-- ===== src/Examples.antt =====
-- Concrete runs of the components, on which the theorems of the library are applied.
mod Levels
mod Providers
mod Browser
mod Stores
mod Scopes
mod Plans
mod Organizations
mod Chats
mod Accounts
mod Visitors
mod Topologies
