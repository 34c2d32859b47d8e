-- ===== src/Stats.antt =====
-- stats/: the statistics of applications.
pub mod Order
pub mod Heap
pub mod Both
pub mod Table
pub mod ActiveApps
pub mod TopApps
