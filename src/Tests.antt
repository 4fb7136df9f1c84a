-- ===== src/Tests.antt =====
-- Concrete data, and the theorems applied to it. One child for each part of the program.
mod Accounts
mod Auth
mod Orgs
mod ProjectTree
mod Queue
mod Patches
mod Policy
mod Service
mod Cache
mod Usage
mod Paths
mod Snapshots
mod Storage
mod Graph
mod Scan
mod Imports
mod Tasks
mod PatchRuns
