-- ===== src/Tests.antt =====
-- Runs of the definitions and of the theorems on concrete data.
mod Deductions
mod Bulks
mod Settlements
mod Guards
mod Desks
mod Hooks
mod Gateways
mod Accounts
mod Listing
mod Notices
