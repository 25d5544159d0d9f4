-- ===== src/Examples.antt =====
-- Worked inputs: each theorem of the header at data that the code could meet.
mod Domain
mod Aggregates
mod Risk
mod Circuit
mod Store
mod Pipeline
mod Auth
mod Llm
mod Settings
mod Shell
mod Limits
