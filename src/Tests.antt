-- ===== src/Tests.antt =====
-- Runs of the definitions on small inputs, and each theorem at an input that meets its hypotheses.
mod Samples
mod Plans
mod Rules
mod Logs
mod Leases
mod Expiry
mod Verdicts
mod Failures
mod Switch
mod Allowances
mod Usages
mod Readbacks
mod Delegations
