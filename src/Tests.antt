-- ===== src/Tests.antt =====
-- The theorems at concrete inputs: a table that is a list, and small stand-ins for the code outside
-- the repository.
mod Data
mod Streams
mod Blobs
mod Proposals
mod Archiving
mod Inclusion
mod Sidecars
mod Commits
mod Archivers
