-- ===== src/System.antt =====
-- The three processes on their one database: what each statement writes, what the processes do in
-- any order, and what stays true of the database whatever they do.
pub mod Writes
pub mod Keeps
pub mod Requests
pub mod Orders
pub mod Messages
pub mod Processes
pub mod Steps
pub mod Safety
pub mod WellFormed
pub mod Reachable
pub mod Lookups
pub mod Provisioned
