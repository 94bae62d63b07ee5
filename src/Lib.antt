-- ===== src/Lib.antt =====
-- acetone: an embedded, version-controlled property graph database on prolly trees in a git object
-- store. This library models the parts on which the identity of a graph version rests, and proves
-- what each promises to the next.
--
-- Model (crates/acetone-model/src/lib.rs): property values. Strings are their UTF-8 bytes, signed
--   machine integers are integers with a range, floats are their bit patterns.
-- Keys (crates/acetone-model/src/keys.rs): the order-preserving encoding of key tuples. Keys.Cmp has
--   rank, value_cmp and key_cmp; Keys.Write has write_element, write_chunked, encode_key,
--   encode_key_into and encode_list_prefix; Keys.Read has the reader, read_element, read_chunked and
--   decode_key. Keys.Encoding is the promised encoding in plain arithmetic. The reader takes fuel:
--   two units for each byte of the input, and one for each byte in the loops over tuples and
--   chunks, which Keys.Total proves to be enough.
-- GraphKeys (crates/acetone-model/src/graph_keys.rs): the keys of the maps of nodes, edges and index
--   entries. GraphKeys.Node, Edge and Index have the structs with their constructors, encoders,
--   decoders and scan prefixes, and GraphKeys.Successor has prefix_successor. They call encode_key,
--   decode_key and encode_list_prefix of Keys.
-- Cypher (crates/acetone-cypher/src/exec): Cypher.Governor (governor.rs) has the query limits and the
--   budget of a query, a record that every operation takes and gives back. The moment of each call
--   is an argument.
-- Cbor (crates/acetone-model/src/cbor.rs): the heads, integers and texts of canonical CBOR, with
--   write_head, write_int, write_text, canonical_str_cmp and the reader's functions under their names.
-- ValueCodec (crates/acetone-model/src/values.rs): property values in canonical CBOR. ValueCodec.Write
--   has encode_value and what it calls, ValueCodec.Read decode_value, and ValueCodec.Floats the half
--   and single precision conversions of cbor.rs, on bit patterns. The reader takes two units of fuel
--   for each byte of the input, which ValueCodec.Total proves to be enough.
-- Graph (crates/acetone-graph/src): Graph.CellMerge (cell_merge.rs) merges the properties and the
--   labels of one record, and compares values by encode_value of ValueCodec.
-- Records (crates/acetone-model/src/records.rs): the records of nodes and edges, which the merge
--   builds, with the normal form of labels. Not modelled: their encoders and decoders.
-- Prolly (crates/acetone-prolly/src): ordered maps on prolly trees. Prolly.Types has the types
--   of the crate. Prolly.Node (node.rs) has encode_leaf_entry, encode_inner_entry, decode_node and
--   read_node; what LevelBuilder of tree.rs puts around the entries is there as push_entries,
--   push_refs and emitted. Prolly.Diff (diff.rs) has LeafMerge and the iterator over one region of
--   leaves, which calls read_node. Prolly.Chunker (chunker.rs) has the parameters, the gear table
--   and feed_entry, and cuts a level's entries into chunks. Prolly.Merge (merge.rs) has the loop
--   of merge over two such iterators, and Prolly.Batch (tree.rs) has merge_ops, which applies the
--   operations of a merge to the entries of the base. A map is the list of its entries in
--   ascending order; Prolly.Ordered walks two of them together. The chunk store and the lengths of
--   digests that gix takes are parameters. The iterator takes fuel, and a number above that of the
--   entries on both sides is enough. Not modelled: the descent into inner nodes of diff, and the
--   construction of trees.
--
-- Not modelled: the git store, the rest of the graph layer, the query language and the command line,
-- which use these parts.
pub mod Cbor
pub mod Cypher
pub mod Graph
pub mod GraphKeys
pub mod Keys
pub mod Model
pub mod Prelude
pub mod Prolly
pub mod Records
pub mod ValueCodec
