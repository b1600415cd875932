-- ===== src/Tests.antt =====
-- Runs of the models on concrete inputs.
mod Samples
mod Store
mod Verdicts
mod Claims
mod Proxies
mod Audits
mod Visits
mod Studies
mod Executions
mod Receipts
mod Summaries
