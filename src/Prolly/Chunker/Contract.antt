-- ===== src/Prolly/Chunker/Contract.antt =====
-- What the cuts of chunker.rs promise the tree.
use acetone.Prelude.Bits.{pow2_mono}
use acetone.Prelude.{by_test}
use acetone.Prelude.{
  ℕ, ◌+◌, ◌*◌, ◌≤◌, ◌<◌, ◌≡◌, refl, ap, Bool, true, false, List, [], ◌∷◌, ◌++◌, arith, All, length,
  if◌then◌else◌, ◌==◌, ltb→ge, leb→gt, ltb, leb,
}
use acetone.Prelude.Result.{ok, err}
use acetone.Prelude.{==_iff, ltb→lt, leb→le, ◌⊎◌, inl, inr, ◌^◌, ◌-◌}
use acetone.Prolly.Types.{
  InvalidParams, min_bytes_zero, min_exceeds_max, max_over_format, mask_bits_too_wide,
  invalid_params,
}
use acetone.Prolly.Types.{Bytes}
use acetone.Prolly.Chunker.{
  ChunkParams, Chunker, new_params, new_chunker, fed, decides, reset, max_chunk_max_bytes, mask,
}
use acetone.Prolly.Chunker.Cuts.{
  chunks_from, chunks_of, concat, concat-chunks_from, chunks_from-few, AllButLast, IsFull,
  IsBounded, Counts, chunks_from-cut, chunks_from-on, reset-Counts,
}
use acetone.Prolly.Chunker.Shape.{chunks_from-IsFull, chunks_from-IsBounded}

fresh : (params : ChunkParams) → Counts params (new_chunker params) []
unfolding new_chunker reset
fresh params = reset-Counts params (record { params = params; hash = 0; len = 0; entries = 0 }) refl

-- The chunks of a level, one after the other, are its entries. Where the least chunk size is not above
-- the greatest, every chunk but the last has at least two entries and `min_bytes` bytes, every chunk
-- without its last entry has one entry at most or less than `max_bytes` bytes, and there are at most
-- half as many chunks as entries, rounded up.
pub chunks_of_lem :
    (params : ChunkParams) (es : List Bytes)
    → params.min_bytes ≤ params.max_bytes
    → (concat (chunks_of params es) ≡ es)
      × AllButLast (IsFull params) (chunks_of params es)
      × All (IsBounded params) (chunks_of params es)
      × (2 * length (chunks_of params es) ≤ length es + 1)
unfolding chunks_of
chunks_of_lem params es ordered = (
  concat-chunks_from (new_chunker params) [] es,
  chunks_from-IsFull params (new_chunker params) [] es ordered (fresh params),
  chunks_from-IsBounded params (new_chunker params) [] es (fresh params),
  omega (arith, chunks_from-few params (new_chunker params) [] es ordered (fresh params)),
)

-- Does the last entry fed close a chunk?
unfoldable pub closes : Chunker → List Bytes → Bool
closes c [] = c.entries == 0
closes c (e ∷ es) =
    let after_cut = closes (reset (fed c e)) es in
    let going_on = closes (fed c e) es in if decides (fed c e) e then after_cut else going_on

resume :
    (c : Chunker) (pending xs ys : List Bytes)
    → ((c.entries == 0) ≡ true → (c ≡ new_chunker c.params) × (pending ≡ []))
    → closes c xs ≡ true
    → chunks_from c pending (xs ++ ys) ≡ chunks_from c pending xs ++ chunks_of c.params ys
unfolding closes chunks_of reset new_chunker
resume c pending [] ys empty h =
    let (renewed, nothing) = empty h in
    rw nothing (unfold chunks_from in ap (λ k. chunks_from k [] ys) renewed)
resume c pending (e ∷ xs) ys empty h =
    by_test (decides (fed c e) e)
      (λ cut.
        rw (chunks_from-cut c pending e (xs ++ ys) cut, chunks_from-cut c pending e xs cut)
          (ap (λ t. (pending ++ e ∷ []) ∷ t)
            (resume (reset c) [] xs ys (λ _. (refl, refl)) (rw cut at h))))
      (λ on.
        rw (chunks_from-on c pending e (xs ++ ys) on, chunks_from-on c pending e xs on)
          (resume (fed c e) (pending ++ e ∷ []) xs ys (λ z. absurd (ground arith)) (rw on at h)))

-- Chunking resumed behind a cut gives the chunks that it would have given without a stop: where the last
-- of the first entries closes a chunk, the chunks of both runs of entries are those of the first, and
-- those of the second chunked on their own.
pub chunks_of-append :
    (params : ChunkParams) (xs ys : List Bytes)
    → closes (new_chunker params) xs ≡ true
    → chunks_of params (xs ++ ys) ≡ chunks_of params xs ++ chunks_of params ys
unfolding chunks_of new_chunker
chunks_of-append params xs ys h = resume (new_chunker params) [] xs ys (λ _. (refl, refl)) h

abbrev pub IsValidParams : ℕ → ℕ → ℕ → Type 0
IsValidParams min_bytes mask_bits max_bytes =
    (0 < min_bytes) × (min_bytes ≤ max_bytes) × (max_bytes ≤ max_chunk_max_bytes) × (mask_bits < 64)

-- The first requirement that parameters miss, in the order in which they are tested.
abbrev pub Misses : InvalidParams → ℕ → ℕ → ℕ → Type 0
Misses min_bytes_zero min_bytes mask_bits max_bytes = min_bytes ≡ 0
Misses min_exceeds_max min_bytes mask_bits max_bytes = (0 < min_bytes) × (max_bytes < min_bytes)
Misses max_over_format min_bytes mask_bits max_bytes =
    (0 < min_bytes) × (min_bytes ≤ max_bytes) × (max_chunk_max_bytes < max_bytes)
Misses mask_bits_too_wide min_bytes mask_bits max_bytes =
    (0 < min_bytes) × (min_bytes ≤ max_bytes) × (max_bytes ≤ max_chunk_max_bytes) × (64 ≤ mask_bits)

-- What the chunks of a level are with parameters that were accepted.
abbrev pub IsChunked : ChunkParams → List Bytes → Type 0
IsChunked params es =
    (concat (chunks_of params es) ≡ es)
    × AllButLast (IsFull params) (chunks_of params es)
    × All (IsBounded params) (chunks_of params es)
    × (2 * length (chunks_of params es) ≤ length es + 1)

mask-lt : (bits : ℕ) → bits < 64 → 2 ^ bits - 1 < 2 ^ 64
mask-lt bits h = omega (arith, pow2_mono bits 64 (omega arith))

-- `ChunkParams::new` either accepts or refuses, and never changes what it is given. Where it accepts,
-- the parameters are in range and as given, the mask is a `u64`, and the chunks of any level are its
-- entries in order, with the sizes and the number that the parameters promise. Where it refuses, the
-- error names the first requirement that is missed: a least chunk size that is positive, that is not
-- above the greatest, a greatest that is not above the format's, and a mask of less than 64 bits.
pub new_params_outcome :
    (min_bytes mask_bits max_bytes : ℕ) (es : List Bytes)
    → ((params : ChunkParams) × (params
          ≡ record { min_bytes = min_bytes; mask_bits = mask_bits; max_bytes = max_bytes })
        × (new_params min_bytes mask_bits max_bytes ≡ ok params)
        × IsValidParams min_bytes mask_bits max_bytes
        × (mask params < 2 ^ 64)
        × IsChunked params es)
      ⊎ ((reason : InvalidParams) × Misses reason min_bytes mask_bits max_bytes
          × (new_params min_bytes mask_bits max_bytes ≡ err (invalid_params reason)))
unfolding new_params
new_params_outcome min_bytes mask_bits max_bytes es =
    let params : ChunkParams = record {
      min_bytes = min_bytes;
      mask_bits = mask_bits;
      max_bytes = max_bytes;
    } in
    by_test (min_bytes == 0)
      (λ none. inr (min_bytes_zero, (==_iff min_bytes 0).0 none, rw none refl))
      (λ a.
        by_test (ltb max_bytes min_bytes)
          (λ over. inr (min_exceeds_max, (positive a, ltb→lt _ _ over), rw (a, over) refl))
          (λ b.
            by_test (ltb max_chunk_max_bytes max_bytes)
              (λ over. inr (
                max_over_format,
                (positive a, ltb→ge _ _ b, ltb→lt _ _ over),
                rw (a, b, over) refl,
              ))
              (λ c.
                by_test (leb 64 mask_bits)
                  (λ wide. inr (
                    mask_bits_too_wide,
                    (positive a, ltb→ge _ _ b, ltb→ge _ _ c, leb→le _ _ wide),
                    rw (a, b, c, wide) refl,
                  ))
                  (λ d. inl (
                    params,
                    refl,
                    rw (a, b, c, d) refl,
                    (positive a, ltb→ge _ _ b, ltb→ge _ _ c, leb→gt _ _ d),
                    mask-lt mask_bits (leb→gt _ _ d),
                    chunks_of_lem params es (ltb→ge _ _ b),
                  )))))
  where
    positive : (min_bytes == 0) ≡ false → 0 < min_bytes
    positive a = ground arith
