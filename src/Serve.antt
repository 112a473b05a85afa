-- ===== src/Serve.antt =====
-- cmd/dropline/serve.go: the server's admission of sessions and of TCP probes.
pub mod Admission
pub mod Session
pub mod Probe
pub mod Final
