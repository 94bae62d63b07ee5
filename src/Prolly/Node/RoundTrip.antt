-- ===== src/Prolly/Node/RoundTrip.antt =====
-- A node that is written reads back.
use acetone.Prelude.{
  ℕ, ◌^◌, ◌<◌, ◌≡◌, refl, ◌∙◌, true, false, List, [], ◌∷◌, ◌++◌, Option, none, some, All, arith,
}
use acetone.Prelude.{ltb, ltb→lt, Bool-cases, inl, inr, append_assoc, append-nil, length}
use acetone.Prelude.{lt, ◌==◌}
use acetone.Prelude.Bytes.{be_bytes, bytes_cmp}
use acetone.Prelude.Result.{ok, bind_parts}
use acetone.Prolly.Types.{Bytes, Entry, NodeRef, leaf, inner}
use acetone.Prolly.Ordered.{Above, IsAscending}
use acetone.Prolly.Diff.Changes.{entry_key}
use acetone.Prolly.Node.{
  Store, ascends, read_entries, read_refs, read_body, decode_node, encode_leaf_entry,
  encode_inner_entry, push_entries, push_refs, emitted,
}
use acetone.Prolly.Node.Frames.{take_bytes-append, take_u32-be_bytes, take_u8-cons}

-- A key and a value that their length frames can hold.
abbrev pub Fits : Entry → Type 0
Fits e = (length e.key < 2 ^ 32) × (length e.value < 2 ^ 32)

-- The entries of a leaf, encoded in front of what follows.
unfoldable pub leaf_bytes : List Entry → Bytes → Bytes
leaf_bytes [] rest = rest
leaf_bytes (e ∷ es) rest =
    be_bytes 4 (length e.key)
    ++ (e.key ++ (be_bytes 4 (length e.value) ++ (e.value ++ leaf_bytes es rest)))

-- Each key is above the one before it.
unfoldable pub Chain : Option Bytes → List Entry → Type 0
Chain last [] = Unit
Chain last (e ∷ es) = (ascends last e.key ≡ true) × Chain (some e.key) es

pub read_entries-leaf_bytes :
    (es : List Entry) (last : Option Bytes) (rest : Bytes)
    → All Fits es
    → Chain last es
    → read_entries (length es) last (leaf_bytes es rest) ≡ ok (es, rest)
unfolding read_entries leaf_bytes Chain
read_entries-leaf_bytes [] last rest fits chain = refl
read_entries-leaf_bytes (e ∷ es) last rest ((fk, fv), fits) (up, chain) =
    rw
      (
        take_u32-be_bytes (length e.key) _ fk,
        take_bytes-append e.key _,
        take_u32-be_bytes (length e.value) _ fv,
        take_bytes-append e.value _,
        up,
        read_entries-leaf_bytes es (some e.key) rest fits chain,
      )
      refl

encode_leaf_entry-ok :
    (k v buf out : Bytes)
    → encode_leaf_entry k v buf ≡ ok out
    → (length k < 2 ^ 32)
      × (length v < 2 ^ 32)
      × (out ≡ buf ++ (be_bytes 4 (length k) ++ (k ++ (be_bytes 4 (length v) ++ v))))
unfolding encode_leaf_entry
encode_leaf_entry-ok k v buf out e = elim (Bool-cases (ltb (length k) (2 ^ 32))) [
  | inr long ↦ cc (rw long at e)
  | inl fk ↦ elim (Bool-cases (ltb (length v) (2 ^ 32))) [
    | inr long ↦ cc (rw (fk, long) at e)
    | inl fv ↦ (ltb→lt _ _ fk, ltb→lt _ _ fv, cc (rw (fk, fv) at e))
  ]
]

pub push_entries-ok :
    (es : List Entry) (buf out : Bytes)
    → push_entries es buf ≡ ok out
    → All Fits es × (out ≡ buf ++ leaf_bytes es [])
unfolding push_entries leaf_bytes
push_entries-ok [] buf out e = (tt, cc (append-nil buf))
push_entries-ok (x ∷ es) buf out e =
    let (buf', first, later) = bind_parts (encode_leaf_entry x.key x.value buf) _ e in
    let (fk, fv, here) = encode_leaf_entry-ok x.key x.value buf buf' first in
    let (fits, there) = push_entries-ok es buf' out later in
    (
      ((fk, fv), fits),
      there ∙ rw here (rw (append_assoc, append_assoc, append_assoc, append_assoc) refl),
    )

-- A reference whose frames can hold its key and its digest, and whose digest is one.
abbrev pub RefFits : Store → NodeRef → Type 0
RefFits store r =
    (length r.last_key < 2 ^ 32) × (length r.hash < 2 ^ 8) × (store.is_digest r.hash ≡ true)

unfoldable pub inner_bytes : List NodeRef → Bytes → Bytes
inner_bytes [] rest = rest
inner_bytes (r ∷ refs) rest =
    be_bytes 4 (length r.last_key)
    ++ (r.last_key ++ (length r.hash ∷ (r.hash ++ inner_bytes refs rest)))

unfoldable pub RefChain : Option Bytes → List NodeRef → Type 0
RefChain last [] = Unit
RefChain last (r ∷ refs) = (ascends last r.last_key ≡ true) × RefChain (some r.last_key) refs

pub read_refs-inner_bytes :
    (store : Store) (refs : List NodeRef) (last : Option Bytes) (rest : Bytes)
    → All (RefFits store) refs
    → RefChain last refs
    → read_refs store (length refs) last (inner_bytes refs rest) ≡ ok (refs, rest)
unfolding read_refs inner_bytes RefChain
read_refs-inner_bytes store [] last rest fits chain = refl
read_refs-inner_bytes store (r ∷ refs) last rest ((fk, fh, digest), fits) (up, chain) =
    rw
      (
        take_u32-be_bytes (length r.last_key) _ fk,
        take_bytes-append r.last_key _,
        take_u8-cons (length r.hash) _,
        take_bytes-append r.hash _,
        digest,
        up,
        read_refs-inner_bytes store refs (some r.last_key) rest fits chain,
      )
      refl

encode_inner_entry-ok :
    (k h buf out : Bytes)
    → encode_inner_entry k h buf ≡ ok out
    → (length k < 2 ^ 32)
      × (length h < 2 ^ 8)
      × (out ≡ buf ++ (be_bytes 4 (length k) ++ (k ++ (length h ∷ h))))
unfolding encode_inner_entry
encode_inner_entry-ok k h buf out e = elim (Bool-cases (ltb (length k) (2 ^ 32))) [
  | inr long ↦ cc (rw long at e)
  | inl fk ↦ elim (Bool-cases (ltb (length h) (2 ^ 8))) [
    | inr long ↦ cc (rw (fk, long) at e)
    | inl fh ↦ (ltb→lt _ _ fk, ltb→lt _ _ fh, cc (rw (fk, fh) at e))
  ]
]

pub push_refs-ok :
    (store : Store) (refs : List NodeRef) (buf out : Bytes)
    → All (λ r. store.is_digest r.hash ≡ true) refs
    → push_refs refs buf ≡ ok out
    → All (RefFits store) refs × (out ≡ buf ++ inner_bytes refs [])
unfolding push_refs inner_bytes
push_refs-ok store [] buf out digests e = (tt, cc (append-nil buf))
push_refs-ok store (r ∷ refs) buf out (digest, digests) e =
    let (buf', first, later) = bind_parts (encode_inner_entry r.last_key r.hash buf) _ e in
    let (fk, fh, here) = encode_inner_entry-ok r.last_key r.hash buf buf' first in
    let (fits, there) = push_refs-ok store refs buf' out digests later in
    (((fk, fh, digest), fits), there ∙ rw here (rw (append_assoc, append_assoc, append_assoc) refl))

ascends_of_lt : (j k : Bytes) → bytes_cmp j k ≡ lt → ascends (some j) k ≡ true
unfolding ascends
ascends_of_lt j k h = rw (ascends, h) refl

Chain-from :
    (es : List Entry) (j : Bytes)
    → Above entry_key j es
    → IsAscending entry_key es
    → Chain (some j) es
unfolding Chain IsAscending
Chain-from [] j above asc = tt
Chain-from (e ∷ es) j (above, more) (p, ps) =
    (ascends_of_lt j e.key above, Chain-from es e.key p ps)

pub Chain-ascending : (es : List Entry) → IsAscending entry_key es → Chain none es
unfolding Chain IsAscending ascends
Chain-ascending [] asc = tt
Chain-ascending (e ∷ es) (p, ps) = (refl, Chain-from es e.key p ps)

abbrev pub ref_key : NodeRef → Bytes
ref_key r = r.last_key

RefChain-from :
    (refs : List NodeRef) (j : Bytes)
    → Above ref_key j refs
    → IsAscending ref_key refs
    → RefChain (some j) refs
unfolding RefChain IsAscending
RefChain-from [] j above asc = tt
RefChain-from (r ∷ refs) j (above, more) (p, ps) =
    (ascends_of_lt j r.last_key above, RefChain-from refs r.last_key p ps)

pub RefChain-ascending : (refs : List NodeRef) → IsAscending ref_key refs → RefChain none refs
unfolding RefChain IsAscending ascends
RefChain-ascending [] asc = tt
RefChain-ascending (r ∷ refs) (p, ps) = (refl, RefChain-from refs r.last_key p ps)

-- A leaf of less than 2 ^ 32 entries that ascend, once its entries are encoded without an error and
-- written as a chunk, is decoded to the same entries.
pub decode_node-leaf :
    (store : Store) (es : List Entry) (buf : Bytes)
    → IsAscending entry_key es
    → length es < 2 ^ 32
    → push_entries es [] ≡ ok buf
    → decode_node store (emitted 0 (length es) buf) 0 ≡ ok (leaf es)
unfolding decode_node emitted read_body
decode_node-leaf store es buf asc few e =
    let (fits, out) = push_entries-ok es [] buf e in
    rw
      (
        take_u8-cons 0 _,
        take_u32-be_bytes (length es) _ few,
        out,
        read_entries-leaf_bytes es none [] fits (Chain-ascending es asc),
      )
      refl

-- An inner node of less than 2 ^ 32 references, at least one, whose last keys ascend and whose
-- hashes are digests, once its references are encoded without an error and written as a chunk of a
-- level above 0, is decoded to the same references.
pub decode_node-inner :
    (store : Store) (level : ℕ) (refs : List NodeRef) (buf : Bytes)
    → 0 < level
    → IsAscending ref_key refs
    → All (λ r. store.is_digest r.hash ≡ true) refs
    → 0 < length refs
    → length refs < 2 ^ 32
    → push_refs refs [] ≡ ok buf
    → decode_node store (emitted level (length refs) buf) level ≡ ok (inner refs)
unfolding decode_node emitted read_body
decode_node-inner store level refs buf up asc digests some_refs few e =
    let (fits, out) = push_refs-ok store refs [] buf digests e in
    let same : (level == level) ≡ true = ground arith in
    let above : (level == 0) ≡ false = ground arith in
    let filled : (length refs == 0) ≡ false = ground arith in
    rw
      (
        take_u8-cons level _,
        same,
        take_u32-be_bytes (length refs) _ few,
        above,
        filled,
        out,
        read_refs-inner_bytes store refs none [] fits (RefChain-ascending refs asc),
      )
      refl
