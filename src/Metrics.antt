-- ===== src/Metrics.antt =====
-- common/metrics: histograms and their samples.
pub mod Samples
pub mod Counters
