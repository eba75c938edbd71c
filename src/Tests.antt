-- ===== src/Tests.antt =====
-- Example runs of the model, and the theorems at concrete inputs.
mod Data
mod Parsing
mod Closing
mod Members
mod Items
mod Access
mod Online
mod Creating
mod Serving
mod Restoring
mod Interleaving
mod Sessions
mod Histories
mod Listing
mod Orders
mod Clock
