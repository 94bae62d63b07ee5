-- ===== src/Prolly/Chunker/Tests.antt =====
-- A chunker run on small entries, and the theorems at it.
use acetone.Prolly.Chunker.{mask}
use acetone.Prolly.Types.{InvalidParams, mask_bits_too_wide}
use acetone.Prelude.{◌⊎◌, ◌^◌, ◌<◌}
use acetone.Prelude.{◌+◌, ◌*◌, ◌≤◌, ◌<◌, ◌≡◌, refl, true, List, [], ◌∷◌, ◌++◌, All, length, arith}
use acetone.Prelude.Result.{ok, err}
use acetone.Prolly.Types.{Bytes, invalid_params, min_exceeds_max}
use acetone.Prolly.Chunker.{
  ChunkParams, new_params, new_chunker, feed_entry, decides, roll, gear, gear_from, splitmix, reset,
}
use acetone.Prolly.Chunker.Cuts.{chunks_from, chunks_of, concat, AllButLast, IsFull, IsBounded}
use acetone.Prolly.Chunker.Contract.{
  chunks_of_lem, chunks_of-append, new_params_outcome, closes, IsValidParams, Misses, IsChunked,
}

abbrev small_params : ChunkParams
small_params = record { min_bytes = 2; mask_bits = 0; max_bytes = 4 }

abbrev sample : List Bytes
sample = (1 ∷ []) ∷ (2 ∷ 3 ∷ []) ∷ (4 ∷ 5 ∷ []) ∷ []

abbrev first_two : List Bytes
first_two = (1 ∷ []) ∷ (2 ∷ 3 ∷ []) ∷ []

-- The first slot of the generator for this seed.
first_slot : gear 0 ≡ 17808715195127037534
unfolding gear gear_from splitmix
first_slot = refl

cut_after_two : chunks_of small_params sample ≡ first_two ∷ ((4 ∷ 5 ∷ []) ∷ []) ∷ []
unfolding chunks_of chunks_from new_chunker feed_entry decides roll gear gear_from splitmix reset
cut_after_two = refl

min_above_max : new_params 1024 12 1023 ≡ err (invalid_params min_exceeds_max)
unfolding new_params
min_above_max = refl

two_close : closes (new_chunker small_params) first_two ≡ true
unfolding closes new_chunker decides roll gear gear_from splitmix reset
two_close = refl

chunks_of_lem_example :
    (concat (chunks_of small_params sample) ≡ sample)
    × AllButLast (IsFull small_params) (chunks_of small_params sample)
    × All (IsBounded small_params) (chunks_of small_params sample)
    × (2 * length (chunks_of small_params sample) ≤ length sample + 1)
chunks_of_lem_example = chunks_of_lem small_params sample (omega arith)

chunks_of-append_example :
    chunks_of small_params (first_two ++ sample)
    ≡ chunks_of small_params first_two ++ chunks_of small_params sample
chunks_of-append_example = chunks_of-append small_params first_two sample two_close

wide_mask : new_params 1024 64 16384 ≡ err (invalid_params mask_bits_too_wide)
unfolding new_params
wide_mask = refl

new_params_outcome_example :
    ((params : ChunkParams) × (params ≡ record { min_bytes = 2; mask_bits = 0; max_bytes = 4 })
      × (new_params 2 0 4 ≡ ok params)
      × IsValidParams 2 0 4
      × (mask params < 2 ^ 64)
      × IsChunked params sample)
    ⊎ ((reason : InvalidParams) × Misses reason 2 0 4
        × (new_params 2 0 4 ≡ err (invalid_params reason)))
new_params_outcome_example = new_params_outcome 2 0 4 sample
