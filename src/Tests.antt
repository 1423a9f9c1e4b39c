-- ===== src/Tests.antt =====
-- The theorems at concrete inputs.
mod Data
mod Messages
mod Requests
mod Jobs
mod Tokens
mod Schema
mod System
mod Documents
