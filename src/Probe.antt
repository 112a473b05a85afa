-- ===== src/Probe.antt =====
-- internal/probe: the path probers, what they read and what they count.
pub mod Hops
pub mod HopState
pub mod Parse
pub mod Flight
pub mod Prober
pub mod TcpProber
