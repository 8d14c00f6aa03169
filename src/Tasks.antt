-- ===== src/Tasks.antt =====
-- pynode/tasks.py: which masternode keeps which chunk, and how chunks come and go.
pub mod Rows
pub mod Text
pub mod Distance
pub mod Ranking
pub mod Indexing
pub mod Tickets
pub mod Fetch
pub mod Moves
pub mod Masternodes
mod Witnesses
