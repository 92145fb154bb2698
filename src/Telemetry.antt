-- ===== src/Telemetry.antt =====
-- shared/telemetry/metrics.py: the counters, gauges and histograms of every service, their registry,
-- and the sampling of backlogs.
pub mod Series
pub mod Order
pub mod Ascending
pub mod LabelSets
pub mod Counter
pub mod Gauge
pub mod Histogram
pub mod Refinement
pub mod Tally
pub mod Cumulative
pub mod Registry
pub mod Backlog
