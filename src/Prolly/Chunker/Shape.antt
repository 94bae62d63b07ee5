-- ===== src/Prolly/Chunker/Shape.antt =====
-- How large the chunks of a level are.
use acetone.Prelude.{by_test}
use acetone.Prelude.{◌+◌, ◌≤◌, ◌<◌, ◌≡◌, refl, ap, ◌∙◌, List, [], ◌∷◌, ◌++◌, arith}
use acetone.Prelude.{length, length-append, ◌⊎◌, inl, inr, All}
use acetone.Prolly.Types.{Bytes}
use acetone.Prolly.Chunker.{ChunkParams, Chunker, fed, decides, reset}
use acetone.Prolly.Chunker.Cuts.{
  chunks_from, total, total-append, AllButLast, IsFull, IsBounded, Counts, AllButLast-cons,
  cut_chunk, chunks_from-cut, chunks_from-on, reset-Counts, fed-Counts,
}

pub chunks_from-IsFull :
    (params : ChunkParams) (c : Chunker) (pending es : List Bytes)
    → params.min_bytes ≤ params.max_bytes
    → Counts params c pending
    → AllButLast (IsFull params) (chunks_from c pending es)
unfolding IsFull
chunks_from-IsFull params c [] [] ordered counts = unfold chunks_from in tt
chunks_from-IsFull params c (x ∷ xs) [] ordered counts = unfold chunks_from in tt
chunks_from-IsFull params c pending (e ∷ es) ordered counts =
    by_test (decides (fed c e) e)
      (λ h. rw (chunks_from-cut c pending e es h) (
        AllButLast-cons (IsFull params) _ _ (cut_chunk params c pending e ordered counts h) (
          chunks_from-IsFull params (reset c) [] es ordered
            (reset-Counts params c counts.same_params))))
      (λ h. rw (chunks_from-on c pending e es h) (
        chunks_from-IsFull params (fed c e) (pending ++ e ∷ []) es ordered
          (fed-Counts params c pending e counts h)))

unsnoc : (x : Bytes) (xs : List Bytes) → (ys : List Bytes) × (e : Bytes) × (x ∷ xs ≡ ys ++ e ∷ [])
unsnoc x [] = ([], x, refl)
unsnoc x (y ∷ ys) = let (front, e, split) = unsnoc y ys in (x ∷ front, e, ap (λ t. x ∷ t) split)

-- What was not cut is bounded, all the more without its last entry.
below-IsBounded :
    (params : ChunkParams) (x : Bytes) (xs : List Bytes)
    → (length (x ∷ xs) < 2) ⊎ (total (x ∷ xs) < params.max_bytes)
    → IsBounded params (x ∷ xs)
unfolding IsBounded
below-IsBounded params x xs below =
    let (front, e, split) = unsnoc x xs in
    let count : length (x ∷ xs) ≡ length front + 1 =
      ap length split ∙ length-append front (e ∷ []) in
    let size : total (x ∷ xs) ≡ total front + total (e ∷ []) =
      ap total split ∙ total-append front (e ∷ []) in
    (
      front,
      e,
      split,
      elim below [
        | inl few ↦ inl (omega (arith, count, few))
        | inr short ↦ inr (omega (arith, size, short))
      ],
    )

pub chunks_from-IsBounded :
    (params : ChunkParams) (c : Chunker) (pending es : List Bytes)
    → Counts params c pending
    → All (IsBounded params) (chunks_from c pending es)
chunks_from-IsBounded params c [] [] counts = unfold chunks_from in tt
chunks_from-IsBounded params c (x ∷ xs) [] counts =
    unfold chunks_from in (below-IsBounded params x xs counts.below, tt)
chunks_from-IsBounded params c pending (e ∷ es) counts =
    by_test (decides (fed c e) e)
      (λ h. rw (chunks_from-cut c pending e es h) (
        (unfold IsBounded in (pending, e, refl, counts.below)),
        chunks_from-IsBounded params (reset c) [] es (reset-Counts params c counts.same_params),
      ))
      (λ h. rw (chunks_from-on c pending e es h) (
        chunks_from-IsBounded params (fed c e) (pending ++ e ∷ []) es
          (fed-Counts params c pending e counts h)))
