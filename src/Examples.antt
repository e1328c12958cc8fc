-- ===== src/Examples.antt =====
-- Runs of the models on concrete values, one file for each part of the program.
mod Queues
mod Mailboxes
mod Containers
mod Transports
mod Managers
mod Systems
mod Receivers
mod Platforms
mod Pools
mod Memories
mod SharedMemories
mod Races
mod Waits
mod Entries
