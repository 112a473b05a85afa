-- ===== src/Agg.antt =====
-- internal/agg: the per-second timeline, the hop tables, and the correlator.
pub mod State
pub mod Timeline
pub mod HopTables
pub mod Aggregator
pub mod Correlate
pub mod Merge
