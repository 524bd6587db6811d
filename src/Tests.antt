-- ===== src/Tests.antt =====
-- Witnesses of the theorems and tests of the definitions, at concrete inputs.
mod Fixtures
mod Runtime
mod Tool
mod Schema
mod Provider
mod Agent
mod Web
mod Eino
mod App
mod Profile
mod Config
mod Server
mod Workspace
