-- ===== src/Tests.antt =====
-- Runs of the definitions on concrete inputs, and the theorems at concrete inputs.
mod Retry
mod Dispatch
mod Queue
mod Manager
mod Handler
mod Mock
mod Request
mod Worker
mod Listing
mod Controller
mod Publisher
mod Response
mod Consumer
mod System
mod App
mod Lifespan
mod Handled
mod Migration
