-- ===== src/Tests.antt =====
-- Runs of the development at concrete data: the coordinator, the engine, the goal store with the goal
-- coordinator, the event bus, the app registries, the sandbox manager, the router, the installer and
-- the safe edit. A world is the list of the methods that were called, the last one first.
mod Checkpoints
mod Tasks
mod Goals
mod Events
mod Apps
mod Sandboxes
mod Routes
mod Packages
mod Edits
