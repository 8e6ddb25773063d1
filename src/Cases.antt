-- ===== src/Cases.antt =====
-- Cases (backend/apps/cases): the links between Cases and the rules that they keep.
pub mod Relationships
