-- ===== src/Driver.antt =====
-- pkg/driver: the two drivers of a task, for the versions 1 and 2 of the configuration.
-- Outside holds the services that a driver calls; the blocklist service and the cache store, whose state
-- a driver changes, are the modelled ones, in a `World` with the task and the calls that were made.
pub mod Env
pub mod Actions
pub mod Keeps
pub mod Ends
pub mod Becomes
pub mod V1
pub mod V2
pub mod Finish
pub mod Tests
