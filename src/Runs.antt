-- ===== src/Runs.antt =====
-- dmdlib/runs.py: one verification run, from the choice of the checks to the receipts.
pub mod Plan
pub mod Outputs
pub mod Finish
