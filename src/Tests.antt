-- ===== src/Tests.antt =====
-- Concrete inputs: `Toy` has small functions for the parameters, the other children the runs and the
-- applications of the theorems to them.
mod Toy
mod Throttling
mod Caching
mod Records
mod Blobs
mod Merges
mod Requests
mod Locking
mod Files
mod Credentials
mod Vaults
mod Durability
mod NewKeys
mod Reached
mod Chaos
mod Assertions
