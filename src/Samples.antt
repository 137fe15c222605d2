-- ===== src/Samples.antt =====
-- Two of the sample programs under _examples: the todo command and the statistics of the workers.
pub mod Todo
pub mod Statistics
