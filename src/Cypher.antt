-- ===== src/Cypher.antt =====
-- crates/acetone-cypher: the parts of the query executor that are modelled.
pub mod Governor
