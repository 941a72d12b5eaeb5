-- ===== src/Tests.antt =====
-- Runs of the model on inputs of the repository's unit tests, and instances of its theorems.
mod Modifiers
mod Registry
mod Parsing
mod Support
mod Dictionary
mod Template
mod Parser
