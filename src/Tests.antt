-- ===== src/Tests.antt =====
-- The theorems at concrete inputs, by the part of the program.
mod Chunking
mod Documents
mod Cache
mod Search
mod Retrieval
mod Ingest
mod Context
mod Loading
mod Process
mod Store
mod Index
mod Tables
mod Tenants
mod Remote
