-- ===== src/Trace.antt =====
-- cmd/dropline/trace.go: the client, from its arguments to its Hello and its reports.
pub mod Texts
pub mod Args
pub mod Hello
pub mod Receive
pub mod Report
pub mod Finish
