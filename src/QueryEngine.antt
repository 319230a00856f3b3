-- ===== src/QueryEngine.antt =====
-- The query engines of query_engine and the dispatcher of scanner/actions/query_engine.go.
pub mod Response
pub mod Tokens
pub mod Engine
pub mod Dispatcher
pub mod Positional
pub mod Ranking
