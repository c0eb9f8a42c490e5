-- ===== src/Examples.antt =====
-- Concrete runs of the program's parts.
mod Addresses
mod Messages
mod Commands
mod Polls
mod Edits
mod Handlers
mod Client
mod Enrollment
mod Payments
mod Wired
mod Requests
mod Program
