-- ===== src/Tests.antt =====
-- The theorems of the development at concrete states and inputs.
mod Scheduling
mod Running
mod Times
mod Systems
mod Outcomes
mod Gaps
mod Booting
mod Deleting
mod Catalogues
mod Matches
mod Syncs
