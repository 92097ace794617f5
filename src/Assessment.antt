-- ===== src/Assessment.antt =====
-- `class Assessment` of dmdlib/model.py: one evaluation of a task against one source map.
pub mod Evidence
pub mod Findings
pub mod Blocked
pub mod Reasons
pub mod Actions
pub mod Summary
