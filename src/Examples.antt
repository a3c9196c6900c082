-- ===== src/Examples.antt =====
-- Concrete workflows and tables, and the theorems at work on them.
mod Ends
mod Wires
mod Data
mod Orders
mod Runs
mod Workers
mod Queues
mod Requests
mod Turning
