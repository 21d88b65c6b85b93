-- ===== src/Metrics.antt =====
-- Package sprometheus: prometheus/metrics.go, on the response writer of prometheus/writer.go.
pub mod Collectors
pub mod Measure
