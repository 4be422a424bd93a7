-- ===== src/GoClient.antt =====
-- goclient/: the client's job spec and its options, and a job that it drives over RPC.
pub mod Spec
pub mod CrawlJob
pub mod Requests
pub mod Passing
pub mod Connection
mod Tests
