-- ===== src/Server.antt =====
-- cmd/server/main.go: the server that puts the parts together. Its state is the record `Server`; the
-- replication manager shares the server's database and the world of its commands, so they stand in
-- `repl`. A goroutine that a handler starts is a task, and runs as a step of its own.
pub mod Types
pub mod Answers
pub mod Grpc
pub mod Handlers
pub mod Admin
pub mod Routes
pub mod Start
pub mod Begins
pub mod Access
pub mod Steps
pub mod Runs
pub mod Soundness
pub mod Snapshots
pub mod Replies
pub mod Sessions
pub mod Policies
pub mod Expiry
pub mod Accounts
pub mod Demo
mod Examples
