-- ===== src/Prolly/Chunker/Cuts.antt =====
-- A level's entries fed one by one, the chunker reset after each cut: the chunks that come out.
use acetone.Prelude.{by_test}
use acetone.Prelude.{ℕ, ◌+◌, ◌*◌, ◌≤◌, ◌<◌, ◌≡◌, refl, sym, true, false, List, [], ◌∷◌, ◌++◌, arith}
use acetone.Prelude.{
  length, length-append, append_assoc, ltb, leb, if◌then◌else◌, ◌⊎◌, inl, inr, ltb→ge, ltb→lt,
  leb→le, leb→gt,
}
use acetone.Prolly.Types.{Bytes}
use acetone.Prolly.Chunker.{ChunkParams, Chunker, new_chunker, fed, decides, feed_entry, reset}

-- The chunks that come out, from the entries since the last cut and those to come. What is left at the
-- end is a chunk too, unless it is empty.
unfoldable pub chunks_from : Chunker → List Bytes → List Bytes → List (List Bytes)
chunks_from c pending [] = elim pending [ [] ↦ [] | x ∷ xs ↦ (x ∷ xs) ∷ [] ]
chunks_from c pending (e ∷ es) =
    let (cut, c') = feed_entry c e in
    let after_cut = (pending ++ e ∷ []) ∷ chunks_from (reset c') [] es in
    let going_on = chunks_from c' (pending ++ e ∷ []) es in if cut then after_cut else going_on

unfoldable pub chunks_of : ChunkParams → List Bytes → List (List Bytes)
chunks_of params es = chunks_from (new_chunker params) [] es

abbrev pub total : List Bytes → ℕ
total [] = 0
total (e ∷ es) = length e + total es

abbrev pub concat : List (List Bytes) → List Bytes
concat [] = []
concat (c ∷ cs) = c ++ concat cs

pub total-append : (xs ys : List Bytes) → total (xs ++ ys) ≡ total xs + total ys
total-append [] ys = omega arith
total-append (x ∷ xs) ys = omega (arith, total-append xs ys)

abbrev pub AllButLast {ℓ} : {A : Type 0} → (A → Type ℓ) → List A → Type ℓ
AllButLast P [] = Unit
AllButLast P (x ∷ []) = Unit
AllButLast P (x ∷ y ∷ rest) = P x × AllButLast P (y ∷ rest)

pub AllButLast-cons :
    {A : Type 0} (P : A → Type 0) (x : A) (xs : List A)
    → P x
    → AllButLast P xs
    → AllButLast P (x ∷ xs)
AllButLast-cons P x [] p ps = tt
AllButLast-cons P x (y ∷ ys) p ps = (p, ps)

-- A chunk that was cut: at least two entries, and at least `min_bytes` bytes.
unfoldable pub IsFull : ChunkParams → List Bytes → Type 0
IsFull params chunk = (2 ≤ length chunk) × (params.min_bytes ≤ total chunk)

-- Without its last entry a chunk has one entry at most, or less than `max_bytes` bytes.
unfoldable pub IsBounded : ChunkParams → List Bytes → Type 0
IsBounded params chunk =
    (xs : List Bytes) × (e : Bytes) × (chunk ≡ xs ++ e ∷ [])
    × ((length xs < 2) ⊎ (total xs < params.max_bytes))

cut_facts :
    (c : Chunker) (bytes : Bytes)
    → c.params.min_bytes ≤ c.params.max_bytes
    → decides c bytes ≡ true
    → (2 ≤ c.entries) × (c.params.min_bytes ≤ c.len)
unfolding decides
cut_facts c bytes h e =
    by_test (ltb c.entries 2) (λ few. cc (rw few at e))
      (λ enough.
        by_test (leb c.params.max_bytes c.len)
          (λ long. (ltb→ge _ _ enough, omega (arith, leb→le _ _ long)))
          (λ short.
            by_test (leb c.params.min_bytes c.len) (λ up. (ltb→ge _ _ enough, leb→le _ _ up))
              (λ below. cc (rw (enough, short, below) at e))))

uncut_facts :
    (c : Chunker) (bytes : Bytes)
    → decides c bytes ≡ false
    → (c.entries < 2) ⊎ (c.len < c.params.max_bytes)
unfolding decides
uncut_facts c bytes e =
    by_test (ltb c.entries 2) (λ few. inl (ltb→lt _ _ few))
      (λ enough.
        by_test (leb c.params.max_bytes c.len) (λ long. cc (rw (enough, long) at e))
          (λ short. inr (leb→gt _ _ short)))

-- The chunker counts what is pending, which was not cut.
pub record Counts (params : ChunkParams) (c : Chunker) (pending : List Bytes) : Type 0 where
  pub same_params : c.params ≡ params
  pub len : c.len ≡ total pending
  pub entries : c.entries ≡ length pending
  pub below : (length pending < 2) ⊎ (total pending < params.max_bytes)

-- What each round does: cut, or go on.
module _ (c : Chunker) (pending : List Bytes) (e : Bytes) (es : List Bytes) where
  pub chunks_from-cut :
      decides (fed c e) e ≡ true
      → chunks_from c pending (e ∷ es) ≡ (pending ++ e ∷ []) ∷ chunks_from (reset c) [] es
  unfolding chunks_from feed_entry reset
  chunks_from-cut h = rw h refl

  pub chunks_from-on :
      decides (fed c e) e ≡ false
      → chunks_from c pending (e ∷ es) ≡ chunks_from (fed c e) (pending ++ e ∷ []) es
  unfolding chunks_from feed_entry
  chunks_from-on h = rw h refl

pub reset-Counts :
    (params : ChunkParams) (c : Chunker) → c.params ≡ params → Counts params (reset c) []
unfolding reset
reset-Counts params c h = record {
  same_params = h;
  len = refl;
  entries = refl;
  below = inl (omega arith);
}

pub fed-Counts :
    (params : ChunkParams) (c : Chunker) (pending : List Bytes) (e : Bytes)
    → Counts params c pending
    → decides (fed c e) e ≡ false
    → Counts params (fed c e) (pending ++ e ∷ [])
fed-Counts params c pending e counts h =
    let more : c.len + length e ≡ total (pending ++ e ∷ []) =
      omega (arith, counts.len, total-append pending (e ∷ [])) in
    let one : c.entries + 1 ≡ length (pending ++ e ∷ []) =
      omega (arith, counts.entries, length-append pending (e ∷ [])) in
    record {
      same_params = counts.same_params;
      len = more;
      entries = one;
      below = elim (uncut_facts (fed c e) e h) [
        | inl few ↦ inl (omega (arith, one, few))
        | inr short ↦ inr (rw (sym more) (rw counts.same_params at short))
      ];
    }

pub cut_chunk :
    (params : ChunkParams) (c : Chunker) (pending : List Bytes) (e : Bytes)
    → params.min_bytes ≤ params.max_bytes
    → Counts params c pending
    → decides (fed c e) e ≡ true
    → (2 ≤ length (pending ++ e ∷ [])) × (params.min_bytes ≤ total (pending ++ e ∷ []))
cut_chunk params c pending e ordered counts h =
    let (two, long) = cut_facts (fed c e) e (rw (sym counts.same_params) at ordered) h in
    (
      omega (arith, counts.entries, length-append pending (e ∷ []), two),
      omega (arith, counts.len, total-append pending (e ∷ []), rw counts.same_params at long),
    )

pub concat-chunks_from :
    (c : Chunker) (pending es : List Bytes) → concat (chunks_from c pending es) ≡ pending ++ es
concat-chunks_from c [] [] = unfold chunks_from in refl
concat-chunks_from c (x ∷ xs) [] = unfold chunks_from in refl
concat-chunks_from c pending (e ∷ es) =
    by_test (decides (fed c e) e)
      (λ h.
        rw (chunks_from-cut c pending e es h, concat-chunks_from (reset c) [] es)
          (append_assoc pending (e ∷ []) es))
      (λ h.
        rw (chunks_from-on c pending e es h, concat-chunks_from (fed c e) (pending ++ e ∷ []) es)
          (append_assoc pending (e ∷ []) es))

pub chunks_from-few :
    (params : ChunkParams) (c : Chunker) (pending es : List Bytes)
    → params.min_bytes ≤ params.max_bytes
    → Counts params c pending
    → 2 * length (chunks_from c pending es) ≤ length pending + length es + 1
chunks_from-few params c [] [] ordered counts = unfold chunks_from in omega arith
chunks_from-few params c (x ∷ xs) [] ordered counts = unfold chunks_from in omega arith
chunks_from-few params c pending (e ∷ es) ordered counts =
    by_test (decides (fed c e) e)
      (λ h.
        let (two, long) = cut_chunk params c pending e ordered counts h in
        rw (chunks_from-cut c pending e es h) (
          omega (
            arith,
            two,
            length-append pending (e ∷ []),
            chunks_from-few params (reset c) [] es ordered
                (reset-Counts params c counts.same_params),
          )))
      (λ h. rw (chunks_from-on c pending e es h) (
        omega (
          arith,
          length-append pending (e ∷ []),
          chunks_from-few params (fed c e) (pending ++ e ∷ []) es ordered
              (fed-Counts params c pending e counts h),
        )))
