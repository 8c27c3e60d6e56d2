-- ===== src/Examples.antt =====
-- Tests, and each theorem with hypotheses at an input that meets them.
mod Maps
mod Storage
mod Sizing
mod Instances
mod Accounts
mod Listings
mod Images
mod Transfers
mod Guards
mod Servers
mod Cuts
mod Restarts
mod Wires
