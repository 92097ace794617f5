-- ===== src/Check.antt =====
-- A check, its candidate tree, its approval and the verdict on its evidence: the check part of
-- dmdlib/model.py, and the approvals of dmdlib/runner.py.
pub mod Definition
pub mod Approvals
pub mod Verdict
