-- ===== src/Tests.antt =====
-- The properties at concrete inputs.
mod Sample
mod Codecs
mod Databases
mod Requests
mod Restarts
mod Connections
mod Flushes
mod Durability
mod Clients
mod Interleavings
mod FileTasks
mod Lifecycles
mod Servers
mod Files
