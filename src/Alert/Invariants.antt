-- ===== src/Alert/Invariants.antt =====
-- What holds of the tables after every operation of the engine.
pub mod WellFormed
pub mod Settled
pub mod Rows
