-- ===== src/Tests.antt =====
-- Runs and examples at concrete inputs.
mod Samples
mod Compile
mod Decide
mod Datapath
mod Slots
mod Krules
mod Agent
mod Grants
mod Reactions
mod Pods
mod Waivers
mod Exports
