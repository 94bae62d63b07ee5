-- ===== src/Graph.antt =====
-- crates/acetone-graph/src: the graph layer.
pub mod CellMerge
