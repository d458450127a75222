-- ===== src/Tests.antt =====
-- Concrete systems, storages and requests, and the theorems at them.
mod World
mod Config
mod Handlers
mod Lifecycle
mod Control
mod Command
mod Access
mod Enrolment
mod Repair
mod Start
mod Addition
mod Keys
mod Services
mod Runs
mod Server
mod Serve
mod Printing
mod Session
mod Moving
