-- ===== src/Examples.antt =====
-- Runs of the models at concrete inputs.
mod Samples
mod Client
mod Bridges
mod Brains
mod Replies
mod World
mod Bots
mod Realm
