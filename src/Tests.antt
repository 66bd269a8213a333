-- ===== src/Tests.antt =====
-- Runs of the definitions on small inputs, and one instance of each theorem.
mod Checksums
mod Payloads
mod Receiver
mod Sender
mod Threads
mod Startup
mod Tools
mod Debug
mod Intake
mod Recall
mod Reports
mod Delivery
mod Data
