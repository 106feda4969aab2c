-- ===== src/Worker.antt =====
-- backend/worker: the loops that work on the tables.
pub mod Alerter
pub mod Prober
pub mod Rollup
