-- ===== src/Examples.antt =====
-- Runs of the theorems at concrete inputs.
mod World
mod Workflow
mod Goal
mod Routing
mod Resuming
mod Safety
mod Windows
mod Streams
mod Spilling
mod Calling
mod Serving
mod Filing
mod Tagging
mod Measuring
