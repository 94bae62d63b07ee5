-- ===== src/Prolly/Node/Strict.antt =====
-- A chunk that is accepted is the writing of the node it is decoded to.
mod Entries
use acetone.Prelude.{by_test}
use acetone.Prelude.{
  ℕ, ◌+◌, ◌^◌, ◌<◌, ◌≡◌, refl, sym, ap, subst, ◌∙◌, Bool, true, false, List, [], ◌∷◌, ◌++◌, Option,
  none, some, All, arith,
}
use acetone.Prelude.{
  zero, suc, ltb, lt→ltb, Bool-cases, inl, inr, append_assoc, append-nil, length, lt, ◌==◌, ==_iff,
  Ordering, if◌then◌else◌,
}
use acetone.Prelude.Bytes.{IsBytes, be_bytes, bytes_cmp}
use acetone.Prelude.Result.{
  ok, err, out_of_fuel, bind_parts, ensure_passed, refuse_passed, ◌>>=◌, ◌>>◌, ensure, refuse,
}
use acetone.Prolly.Types.{Bytes, Prolly, ProllyError, Entry, NodeRef, Node, leaf, inner}
use acetone.Prolly.Ordered.{Above, Above-weaken, IsAscending}
use acetone.Prolly.Diff.Changes.{entry_key}
use acetone.Prolly.Node.{
  Store, ascends, read_entries, read_refs, read_body, decode_node, encode_leaf_entry,
  encode_inner_entry, push_entries, push_refs, emitted, take_u8, take_u32, take_bytes, is_empty,
}
use acetone.Prolly.Node.Frames.{
  ok_injective, take_bytes-Took, take_u32-TookWord, take_u8-TookWord, be_bytes-byte,
}
use acetone.Prolly.Node.RoundTrip.{Fits, leaf_bytes, Chain, ref_key, RefFits, inner_bytes, RefChain}
use Entries.{
  push_entries-leaf_bytes, push_refs-inner_bytes, Chain-IsAscending, RefChain-IsAscending,
  EntriesRead, RefsRead, read_entries-Read, read_refs-Read,
}

-- A node, and the chunk of a level that it is written as.
unfoldable pub IsChunkOf : Store → ℕ → Node → Bytes → Type 0
IsChunkOf store level (leaf es) chunk =
    (level ≡ 0)
    × IsAscending entry_key es
    × ((buf : Bytes) × (push_entries es [] ≡ ok buf) × (chunk ≡ emitted 0 (length es) buf))
IsChunkOf store level (inner refs) chunk =
    (0 < level)
    × IsAscending ref_key refs
    × (0 < length refs)
    × All (λ r. store.is_digest r.hash ≡ true) refs
    × ((buf : Bytes) × (push_refs refs [] ≡ ok buf) × (chunk ≡ emitted level (length refs) buf))

emptied : (rest : Bytes) → is_empty rest ≡ true → rest ≡ []
emptied [] h = refl
emptied (b ∷ rest) h = cc

-- The two kinds of nodes, each with what its reader has found.
leaf_chunk :
    (store : Store) (level count : ℕ) (body : Bytes) (r : List Entry × Bytes)
    → level ≡ 0
    → EntriesRead count none body r
    → r.1 ≡ []
    → IsChunkOf store level (leaf r.0) (emitted level count body)
unfolding IsChunkOf
leaf_chunk store level count body r bottom facts done = (
  bottom,
  Chain-IsAscending r.0 facts.chain,
  (
    leaf_bytes r.0 [],
    push_entries-leaf_bytes r.0 [] facts.fits,
    rw (bottom, facts.counted) (ap (emitted 0 count) (rw done at facts.split)),
  ),
)

digests_of :
    (store : Store) (refs : List NodeRef)
    → All (RefFits store) refs
    → All (λ r. store.is_digest r.hash ≡ true) refs
digests_of store [] fits = tt
digests_of store (r ∷ refs) ((fk, fh, digest), fits) = (digest, digests_of store refs fits)

inner_chunk :
    (store : Store) (level count : ℕ) (body : Bytes) (r : List NodeRef × Bytes)
    → 0 < level
    → 0 < count
    → RefsRead store count none body r
    → r.1 ≡ []
    → IsChunkOf store level (inner r.0) (emitted level count body)
unfolding IsChunkOf
inner_chunk store level count body r up filled facts done = (
  up,
  RefChain-IsAscending r.0 facts.chain,
  omega (arith, facts.counted),
  digests_of store r.0 facts.fits,
  (
    inner_bytes r.0 [],
    push_refs-inner_bytes store r.0 [] facts.fits,
    rw facts.counted (ap (emitted level count) (rw done at facts.split)),
  ),
)

read_body-IsChunkOf :
    (store : Store) (level count : ℕ) (body : Bytes) (q : Node × Bytes)
    → IsBytes body
    → read_body store level count body ≡ ok q
    → q.1 ≡ []
    → IsChunkOf store level q.0 (emitted level count body)
unfolding read_body
read_body-IsChunkOf store level count body q h e done =
    by_test (level == 0)
      (λ bottom.
        let (r, run, final) = bind_parts (read_entries count none body) _ (rw bottom at e) in
        let same = ok_injective final in
        subst (λ p. IsChunkOf store level p.0 (emitted level count body)) same
          (leaf_chunk store level count body r ((==_iff level 0).0 bottom)
            (read_entries-Read count none body r h run) (ap (λ p. p.1) same ∙ done)))
      (λ up.
        let (filled, e1) = refuse_passed (count == 0) _ _ q (rw up at e) in
        let (r, run, final) = bind_parts (read_refs store count none body) _ e1 in
        let same = ok_injective final in
        subst (λ p. IsChunkOf store level p.0 (emitted level count body)) same
          (inner_chunk store level count body r (ground arith) (ground arith)
            (read_refs-Read store count none body r h run) (ap (λ p. p.1) same ∙ done)))

reassembled :
    (store : Store) (level tag count : ℕ) (chunk after body : Bytes) (node node' : Node)
    → chunk ≡ be_bytes 1 tag ++ after
    → be_bytes 1 tag ≡ tag ∷ []
    → (tag == level) ≡ true
    → after ≡ be_bytes 4 count ++ body
    → node ≡ node'
    → IsChunkOf store tag node (emitted tag count body)
    → IsChunkOf store level node' chunk
unfolding emitted
reassembled store level tag count chunk after body node node' e1 byte expected e2 same is_chunk =
    let at_level : tag ≡ level = (==_iff tag level).0 expected in
    let whole : emitted tag count body ≡ chunk =
      ap (λ t. tag ∷ t) (sym e2) ∙ (ap (λ b. b ++ after) (sym byte) ∙ sym e1) in
    subst (λ l. IsChunkOf store l node' chunk) at_level
      (subst (λ n. IsChunkOf store tag n chunk) same
        (subst (IsChunkOf store tag node) whole is_chunk))

-- From bytes `decode_node` takes no chunk but the one that a node of the level expected is written
-- as: its keys ascend, and an inner node has at least one reference and only digests for hashes.
pub decode_node-IsChunkOf :
    (store : Store) (chunk : Bytes) (level : ℕ) (node : Node)
    → IsBytes chunk
    → decode_node store chunk level ≡ ok node
    → IsChunkOf store level node chunk
unfolding decode_node
decode_node-IsChunkOf store chunk level node h e =
    let (tag, run_1, e1) = bind_parts (take_u8 chunk) _ e in
    let (split_1, bound_1, bytes_1) = take_u8-TookWord chunk tag h run_1 in
    let (expected, e2) = ensure_passed (tag.0 == level) _ _ node e1 in
    let (count, run_3, e3) = bind_parts (take_u32 tag.1) _ e2 in
    let (split_3, bound_3, bytes_3) = take_u32-TookWord tag.1 count bytes_1 run_3 in
    let (q, run_4, e4) = bind_parts (read_body store tag.0 count.0 count.1) _ e3 in
    let (ended, e5) = ensure_passed (is_empty q.1) _ _ node e4 in
    let body =
      read_body-IsChunkOf store tag.0 count.0 count.1 q bytes_3 run_4 (emptied q.1 ended) in
    let same : q.0 ≡ node = ok_injective e5 in
    reassembled store level tag.0 count.0 chunk tag.1 count.1 q.0 node split_1
      (be_bytes-byte tag.0 (omega (arith, bound_1))) expected split_3 same body
