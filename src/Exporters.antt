-- ===== src/Exporters.antt =====
-- The exporters: src/export/.
pub mod Prometheus
pub mod Json
