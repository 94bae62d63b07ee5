-- ===== src/Prolly/Node/Strict/Entries.antt =====
-- The entries and the references that are read are those that the bytes are written from.
use acetone.Prelude.{by_order}
use acetone.Prelude.{
  ℕ, ◌≡◌, refl, sym, ap, subst, ◌∙◌, true, List, [], ◌∷◌, ◌++◌, Option, none, some, All, arith,
}
use acetone.Prelude.{zero, suc, lt→ltb, append_assoc, append-nil, length, lt}
use acetone.Prelude.Bytes.{IsBytes, be_bytes, bytes_cmp}
use acetone.Prelude.Result.{ok, bind_parts, ensure_passed}
use acetone.Prolly.Types.{Bytes, Entry, NodeRef}
use acetone.Prolly.Ordered.{Above, Above-weaken, IsAscending}
use acetone.Prolly.Diff.Changes.{entry_key}
use acetone.Prolly.Node.{
  Store, ascends, read_entries, read_refs, encode_leaf_entry, encode_inner_entry, push_entries,
  push_refs, take_u8, take_u32, take_bytes,
}
use acetone.Prolly.Node.Frames.{
  ok_injective, take_bytes-Took, take_u32-TookWord, take_u8-TookWord, be_bytes-byte,
}
use acetone.Prolly.Node.RoundTrip.{Fits, leaf_bytes, Chain, ref_key, RefFits, inner_bytes, RefChain}

pub push_entries-leaf_bytes :
    (es : List Entry) (buf : Bytes)
    → All Fits es
    → push_entries es buf ≡ ok (buf ++ leaf_bytes es [])
unfolding push_entries leaf_bytes encode_leaf_entry
push_entries-leaf_bytes [] buf fits = ap ok (sym (append-nil buf))
push_entries-leaf_bytes (e ∷ es) buf ((fk, fv), fits) =
    rw (lt→ltb _ _ fk, lt→ltb _ _ fv)
      (push_entries-leaf_bytes es _ fits
        ∙ ap ok (rw (append_assoc, append_assoc, append_assoc, append_assoc) refl))

pub push_refs-inner_bytes :
    (store : Store) (refs : List NodeRef) (buf : Bytes)
    → All (RefFits store) refs
    → push_refs refs buf ≡ ok (buf ++ inner_bytes refs [])
unfolding push_refs inner_bytes encode_inner_entry
push_refs-inner_bytes store [] buf fits = ap ok (sym (append-nil buf))
push_refs-inner_bytes store (r ∷ refs) buf ((fk, fh, digest), fits) =
    rw (lt→ltb _ _ fk, lt→ltb _ _ fh)
      (push_refs-inner_bytes store refs _ fits
        ∙ ap ok (rw (append_assoc, append_assoc, append_assoc) refl))

lt_of_ascends : (j k : Bytes) → ascends (some j) k ≡ true → bytes_cmp j k ≡ lt
unfolding ascends
lt_of_ascends j k e =
    by_order (bytes_cmp j k) (λ h. h) (λ h. cc (rw (ascends, h) at e))
      (λ h. cc (rw (ascends, h) at e))

Above-Chain :
    (es : List Entry) (j : Bytes)
    → Chain (some j) es
    → Above entry_key j es × IsAscending entry_key es
unfolding Chain IsAscending
Above-Chain [] j chain = (tt, tt)
Above-Chain (e ∷ es) j (up, chain) =
    let (above, asc) = Above-Chain es e.key chain in
    let less = lt_of_ascends j e.key up in
    ((less, Above-weaken entry_key j e.key es less above), (above, asc))

pub Chain-IsAscending : (es : List Entry) → Chain none es → IsAscending entry_key es
unfolding Chain IsAscending
Chain-IsAscending [] chain = tt
Chain-IsAscending (e ∷ es) (up, chain) = Above-Chain es e.key chain

Above-RefChain :
    (refs : List NodeRef) (j : Bytes)
    → RefChain (some j) refs
    → Above ref_key j refs × IsAscending ref_key refs
unfolding RefChain IsAscending
Above-RefChain [] j chain = (tt, tt)
Above-RefChain (r ∷ refs) j (up, chain) =
    let (above, asc) = Above-RefChain refs r.last_key chain in
    let less = lt_of_ascends j r.last_key up in
    ((less, Above-weaken ref_key j r.last_key refs less above), (above, asc))

pub RefChain-IsAscending : (refs : List NodeRef) → RefChain none refs → IsAscending ref_key refs
unfolding RefChain IsAscending
RefChain-IsAscending [] chain = tt
RefChain-IsAscending (r ∷ refs) (up, chain) = Above-RefChain refs r.last_key chain

framed_twice :
    (kl vl : ℕ) (chunk c1 c2 c3 c4 k v tail : Bytes)
    → chunk ≡ be_bytes 4 kl ++ c1
    → c1 ≡ k ++ c2
    → length k ≡ kl
    → c2 ≡ be_bytes 4 vl ++ c3
    → c3 ≡ v ++ c4
    → length v ≡ vl
    → c4 ≡ tail
    → chunk ≡ be_bytes 4 (length k) ++ (k ++ (be_bytes 4 (length v) ++ (v ++ tail)))
framed_twice kl vl chunk c1 c2 c3 c4 k v tail e1 e2 e3 e4 e5 e6 e7 = cc

pub record EntriesRead (count : ℕ) (last : Option Bytes) (chunk : Bytes) (q : List Entry × Bytes)
    : Type 0 where
  pub split : chunk ≡ leaf_bytes q.0 q.1
  pub counted : length q.0 ≡ count
  pub fits : All Fits q.0
  pub chain : Chain last q.0
  pub rest : IsBytes q.1

pub read_entries-Read :
    (count : ℕ) (last : Option Bytes) (chunk : Bytes) (q : List Entry × Bytes)
    → IsBytes chunk
    → read_entries count last chunk ≡ ok q
    → EntriesRead count last chunk q
unfolding read_entries leaf_bytes Chain
read_entries-Read zero last chunk q h e =
    subst (EntriesRead zero last chunk) (ok_injective e)
      (record { split = refl; counted = refl; fits = tt; chain = tt; rest = h })
read_entries-Read (suc count) last chunk q h e =
    let (klen, run_1, e1) = bind_parts (take_u32 chunk) _ e in
    let (split_1, bound_1, bytes_1) = take_u32-TookWord chunk klen h run_1 in
    let (key, run_2, e2) = bind_parts (take_bytes klen.0 klen.1) _ e1 in
    let (split_2, exact_2, bytes_k, bytes_2) = take_bytes-Took klen.0 klen.1 key bytes_1 run_2 in
    let (vlen, run_3, e3) = bind_parts (take_u32 key.1) _ e2 in
    let (split_3, bound_3, bytes_3) = take_u32-TookWord key.1 vlen bytes_2 run_3 in
    let (value, run_4, e4) = bind_parts (take_bytes vlen.0 vlen.1) _ e3 in
    let (split_4, exact_4, bytes_v, bytes_4) = take_bytes-Took vlen.0 vlen.1 value bytes_3 run_4 in
    let (up, e5) = ensure_passed (ascends last key.0) _ _ q e4 in
    let (more, run_6, e6) = bind_parts (read_entries count (some key.0) value.1) _ e5 in
    let later = read_entries-Read count (some key.0) value.1 more bytes_4 run_6 in
    subst (EntriesRead (suc count) last chunk) (ok_injective e6) (record {
      split =
          framed_twice _ _ _ _ _ _ _ _ _ _ split_1 split_2 exact_2 split_3 split_4 exact_4
            later.split;
      counted = ap suc later.counted;
      fits = ((omega (arith, exact_2, bound_1), omega (arith, exact_4, bound_3)), later.fits);
      chain = (up, later.chain);
      rest = later.rest;
    })

pub record RefsRead (store : Store) (count : ℕ) (last : Option Bytes) (chunk : Bytes)
    (q : List NodeRef × Bytes) : Type 0 where
  pub split : chunk ≡ inner_bytes q.0 q.1
  pub counted : length q.0 ≡ count
  pub fits : All (RefFits store) q.0
  pub chain : RefChain last q.0
  pub rest : IsBytes q.1

framed_digest :
    (kl hl : ℕ) (chunk c1 c2 c3 c4 k h tail : Bytes)
    → chunk ≡ be_bytes 4 kl ++ c1
    → c1 ≡ k ++ c2
    → length k ≡ kl
    → c2 ≡ be_bytes 1 hl ++ c3
    → be_bytes 1 hl ≡ hl ∷ []
    → c3 ≡ h ++ c4
    → length h ≡ hl
    → c4 ≡ tail
    → chunk ≡ be_bytes 4 (length k) ++ (k ++ (length h ∷ (h ++ tail)))
framed_digest kl hl chunk c1 c2 c3 c4 k h tail e1 e2 e3 e4 byte e5 e6 e7 =
    let one : c2 ≡ hl ∷ c3 = e4 ∙ ap (λ b. b ++ c3) byte in cc

pub read_refs-Read :
    (store : Store) (count : ℕ) (last : Option Bytes) (chunk : Bytes) (q : List NodeRef × Bytes)
    → IsBytes chunk
    → read_refs store count last chunk ≡ ok q
    → RefsRead store count last chunk q
unfolding read_refs inner_bytes RefChain
read_refs-Read store zero last chunk q h e =
    subst (RefsRead store zero last chunk) (ok_injective e)
      (record { split = refl; counted = refl; fits = tt; chain = tt; rest = h })
read_refs-Read store (suc count) last chunk q h e =
    let (klen, run_1, e1) = bind_parts (take_u32 chunk) _ e in
    let (split_1, bound_1, bytes_1) = take_u32-TookWord chunk klen h run_1 in
    let (key, run_2, e2) = bind_parts (take_bytes klen.0 klen.1) _ e1 in
    let (split_2, exact_2, bytes_k, bytes_2) = take_bytes-Took klen.0 klen.1 key bytes_1 run_2 in
    let (hlen, run_3, e3) = bind_parts (take_u8 key.1) _ e2 in
    let (split_3, bound_3, bytes_3) = take_u8-TookWord key.1 hlen bytes_2 run_3 in
    let (hash, run_4, e4) = bind_parts (take_bytes hlen.0 hlen.1) _ e3 in
    let (split_4, exact_4, bytes_h, bytes_4) = take_bytes-Took hlen.0 hlen.1 hash bytes_3 run_4 in
    let (digest, e5) = ensure_passed (store.is_digest hash.0) _ _ q e4 in
    let (up, e6) = ensure_passed (ascends last key.0) _ _ q e5 in
    let (more, run_7, e7) = bind_parts (read_refs store count (some key.0) hash.1) _ e6 in
    let later = read_refs-Read store count (some key.0) hash.1 more bytes_4 run_7 in
    subst (RefsRead store (suc count) last chunk) (ok_injective e7) (record {
      split =
          framed_digest _ _ _ _ _ _ _ _ _ _ split_1 split_2 exact_2 split_3
            (be_bytes-byte hlen.0 (omega (arith, bound_3))) split_4 exact_4 later.split;
      counted = ap suc later.counted;
      fits =
          ((omega (arith, exact_2, bound_1), omega (arith, exact_4, bound_3), digest), later.fits);
      chain = (up, later.chain);
      rest = later.rest;
    })
