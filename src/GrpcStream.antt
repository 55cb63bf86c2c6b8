-- ===== src/GrpcStream.antt =====
-- rust/processor/src/grpc_stream.rs: the connection to the data service (`Connect`), one response
-- (`Response`), and the fetcher's loop (`Fetcher`). Logs, metrics, sleeps and TLS are left out; what the
-- service answers is given as the sequence of the answers.
pub mod Connect
pub mod Response
pub mod Fetcher
mod Tests
