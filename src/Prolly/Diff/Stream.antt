-- ===== src/Prolly/Diff/Stream.antt =====
-- The stream of differences of two runs of leaves is that of the maps they hold.
use acetone.Prelude.{by_test, by_order}
use acetone.Prelude.{
  ℕ, zero, suc, ◌+◌, ◌<◌, ◌≡◌, refl, ◌∙◌, ap, List, [], ◌∷◌, ◌++◌, Option, none, some,
}
use acetone.Prelude.{Bool, length, length-append, arith, ◌⊎◌, inl, inr}
use acetone.Prelude.Bytes.{bytes_cmp}
use acetone.Prelude.Result.{ok}
use acetone.Prolly.Types.{bytes_eq, Entry, NodeRef, DiffEntry, yields, Prolly}
use acetone.Prolly.Node.{Store}
use acetone.Prolly.Diff.{
  Round, state_of, LeafMerge, read_leaf, top_up, round, next_entry, region_diff, drained, found,
  skipped,
}
use acetone.Prolly.Diff.Changes.{
  removed, added, changed, changes, of_list, changes-lt, changes-gt, changes-same, changes-differ,
}

-- The leaves that references point at read, one after the other, as a run of entries.
unfoldable pub Holds : Store → Bool → List NodeRef → List Entry → Type 0
Holds store pseudo [] es = es ≡ []
Holds store pseudo (r ∷ refs) es =
    (first : List Entry) × (later : List Entry) × (read_leaf store r pseudo ≡ ok first)
    × Holds store pseudo refs later
    × (es ≡ first ++ later)

-- One side's buffer and references have `es` to come.
abbrev pub Side : Store → Bool → List Entry → List NodeRef → List Entry → Type 0
Side store pseudo buffer refs es =
    (later : List Entry) × Holds store pseudo refs later × (es ≡ buffer ++ later)

abbrev pub RegionHolds : Store → LeafMerge → List Entry → List Entry → Type 0
RegionHolds store s a b = Side store s.pseudo s.a s.a_refs a × Side store s.pseudo s.b s.b_refs b

abbrev Shorter : List Entry → List Entry → List Entry → List Entry → Type 0
Shorter a' b' a b = length a' + length b' < length a + length b

-- What a round makes of two buffers, `la` and `lb` standing behind them.
module _ (la lb : List Entry) where
  Drained : List Entry → List Entry → Type 0
  Drained a b = (round a b ≡ drained) × (changes (a ++ la) (b ++ lb) ≡ [])

  Found : List Entry → List Entry → Type 0
  Found a b =
      (e : DiffEntry) × (a' : List Entry) × (b' : List Entry) × (round a b ≡ found e a' b')
      × (changes (a ++ la) (b ++ lb) ≡ e ∷ changes (a' ++ la) (b' ++ lb))
      × Shorter a' b' a b

  Skipped : List Entry → List Entry → Type 0
  Skipped a b =
      (a' : List Entry) × (b' : List Entry) × (round a b ≡ skipped a' b')
      × (changes (a ++ la) (b ++ lb) ≡ changes (a' ++ la) (b' ++ lb))
      × Shorter a' b' a b

  abbrev Rounded : List Entry → List Entry → Type 0
  Rounded a b = Drained a b ⊎ (Found a b ⊎ Skipped a b)

  round-Rounded : (a b : List Entry) → (a ≡ [] → la ≡ []) → (b ≡ [] → lb ≡ []) → Rounded a b
  unfolding Drained Found Skipped round
  round-Rounded [] [] ea eb = inl (refl, rw (ea refl, eb refl) (unfold changes in refl))
  round-Rounded (x ∷ a) [] ea eb =
      inr (inl (removed x, a, [], refl, rw (eb refl) (unfold changes in refl), omega arith))
  round-Rounded [] (y ∷ b) ea eb =
      inr (inl (added y, [], b, refl, rw (ea refl) (unfold changes in refl), omega arith))
  round-Rounded (x ∷ a) (y ∷ b) ea eb =
      by_order (bytes_cmp x.key y.key)
        (λ h.
          inr (inl (removed x, a, y ∷ b, rw (round, h) refl, changes-lt x y _ _ h, omega arith)))
        (λ h.
          by_test (bytes_eq x.value y.value)
            (λ same.
              inr (inr (a, b, rw (round, h, same) refl, changes-same x y _ _ h same, omega arith)))
            (λ differ. inr (
              inl (
                changed x y,
                a,
                b,
                rw (round, h, differ) refl,
                changes-differ x y _ _ h differ,
                omega arith,
              ))))
        (λ h. inr (inl (added y, x ∷ a, b, rw (round, h) refl, changes-gt x y _ _ h, omega arith)))

-- After topping up, an empty buffer means that nothing is to come.
abbrev ToppedUp : Store → Bool → List Entry → List NodeRef → List Entry → Type 0
ToppedUp store pseudo buffer refs es =
    (buffer' : List Entry) × (refs' : List NodeRef) × (top_up store buffer refs pseudo
      ≡ ok (buffer', refs'))
    × ((later : List Entry) × Holds store pseudo refs' later
        × (es ≡ buffer' ++ later)
        × (buffer' ≡ [] → later ≡ []))

top_up-ToppedUp :
    (store : Store) (pseudo : Bool) (buffer : List Entry) (refs : List NodeRef) (es : List Entry)
    → Side store pseudo buffer refs es
    → ToppedUp store pseudo buffer refs es
unfolding Holds top_up
top_up-ToppedUp store pseudo (x ∷ buffer) refs es (later, held, e) =
    (x ∷ buffer, refs, refl, (later, held, e, λ h. cc h))
top_up-ToppedUp store pseudo [] [] es (later, held, e) = ([], [], refl, (later, held, e, λ h. held))
top_up-ToppedUp store pseudo [] (r ∷ refs) es (later, (first, more, read, held, split), e) =
    let (buffer', refs', run, side) =
      top_up-ToppedUp store pseudo first refs es (more, held, e ∙ split) in
    (buffer', refs', rw read run, side)

-- One step of the iterator against the differences to come.
abbrev Stepped : ℕ → Store → LeafMerge → List Entry → List Entry → Type 0
Stepped fuel store s a b =
    ((s' : LeafMerge) × (next_entry fuel store s ≡ ok (none, s')) × (changes a b ≡ []))
    ⊎ ((e : DiffEntry) × (s' : LeafMerge) × (a' : List Entry) × (b' : List Entry) × (next_entry fuel
            store s
          ≡ ok (some e, s'))
        × (changes a b ≡ e ∷ changes a' b')
        × RegionHolds store s' a' b'
        × Shorter a' b' a b)

Shorter-append :
    (a' b' a b la lb : List Entry)
    → Shorter a' b' a b
    → Shorter (a' ++ la) (b' ++ lb) (a ++ la) (b ++ lb)
Shorter-append a' b' a b la lb h =
    omega (arith, length-append a' la, length-append b' lb, length-append a la, length-append b lb)

Stepped-again :
    (fuel : ℕ) (store : Store) (s s' : LeafMerge) (a b a' b' : List Entry)
    → next_entry (suc fuel) store s ≡ next_entry fuel store s'
    → changes a b ≡ changes a' b'
    → Shorter a' b' a b
    → Stepped fuel store s' a' b'
    → Stepped (suc fuel) store s a b
Stepped-again fuel store s s' a b a' b' run split less (inl (s2, stop, none_left)) =
    inl (s2, run ∙ stop, split ∙ none_left)
Stepped-again fuel store s s' a b a' b' run split less
      (inr (e, s2, a2, b2, go, more, region, less')) =
    inr (e, s2, a2, b2, run ∙ go, split ∙ more, region, omega arith)

-- What `next_entry` comes to after the round.
module _ (fuel : ℕ) (store : Store) (s : LeafMerge) (refs_a refs_b : List NodeRef) where
  abbrev after : List Entry → List Entry → Round → Prolly (Option DiffEntry × LeafMerge)
  after a b drained = ok (none, state_of s refs_a refs_b a b)
  after a b (found e a' b') = ok (some e, state_of s refs_a refs_b a' b')
  after a b (skipped a' b') = next_entry fuel store (state_of s refs_a refs_b a' b')

  next_entry-round :
      (a b : List Entry) (r : Round)
      → top_up store s.a s.a_refs s.pseudo ≡ ok (a, refs_a)
      → top_up store s.b s.b_refs s.pseudo ≡ ok (b, refs_b)
      → round a b ≡ r
      → next_entry (suc fuel) store s ≡ after a b r
  unfolding next_entry
  next_entry-round a b r run_a run_b h = rw (run_a, run_b) (ap (λ r'. after a b r') h)

next_entry-Stepped :
    (fuel : ℕ) (store : Store) (s : LeafMerge) (a b : List Entry)
    → RegionHolds store s a b
    → length a + length b < fuel
    → Stepped fuel store s a b
unfolding Drained Found Skipped
next_entry-Stepped zero store s a b region enough = absurd (omega arith)
next_entry-Stepped (suc fuel) store s a b (left, right) enough =
    let (buffer_a, refs_a, run_a, side_a) = top_up-ToppedUp store s.pseudo s.a s.a_refs a left in
    let (buffer_b, refs_b, run_b, side_b) = top_up-ToppedUp store s.pseudo s.b s.b_refs b right in
    let (later_a, held_a, split_a, empty_a) = side_a in
    let (later_b, held_b, split_b, empty_b) = side_b in
    let state : List Entry → List Entry → LeafMerge = state_of s refs_a refs_b in
    let differences : changes a b ≡ changes (buffer_a ++ later_a) (buffer_b ++ later_b) =
      cc (split_a, split_b) in
    let longest : length (buffer_a ++ later_a) + length (buffer_b ++ later_b)
        ≡ length a + length b =
      cc (split_a, split_b) in
    elim (round-Rounded later_a later_b buffer_a buffer_b empty_a empty_b) [
      | inl (stop, none_left) ↦ inl (
        state buffer_a buffer_b,
        next_entry-round fuel store s refs_a refs_b buffer_a buffer_b drained run_a run_b stop,
        differences ∙ none_left,
      )
      | inr (inl (e, a', b', step, split, shorter)) ↦ inr (
        e,
        state a' b',
        a' ++ later_a,
        b' ++ later_b,
        next_entry-round fuel store s refs_a refs_b buffer_a buffer_b _ run_a run_b step,
        differences ∙ split,
        ((later_a, held_a, refl), (later_b, held_b, refl)),
        omega (arith, longest, Shorter-append a' b' buffer_a buffer_b later_a later_b shorter),
      )
      | inr (inr (a', b', step, split, shorter)) ↦
          let less : length (a' ++ later_a) + length (b' ++ later_b) < length a + length b =
            omega
              (arith, longest, Shorter-append a' b' buffer_a buffer_b later_a later_b shorter) in
          Stepped-again fuel store s (state a' b') a b (a' ++ later_a) (b' ++ later_b)
            (next_entry-round fuel store s refs_a refs_b buffer_a buffer_b _ run_a run_b step)
            (differences ∙ split) less
            (next_entry-Stepped fuel store (state a' b') (a' ++ later_a) (b' ++ later_b)
              ((later_a, held_a, refl), (later_b, held_b, refl)) (omega arith))
    ]

-- On enough fuel the iterator yields the differences of the two runs, and ends.
pub region_diff-changes :
    (fuel : ℕ) (store : Store) (s : LeafMerge) (a b : List Entry)
    → RegionHolds store s a b
    → length a + length b < fuel
    → region_diff fuel store s ≡ of_list (changes a b)
unfolding region_diff
region_diff-changes zero store s a b region enough = absurd (omega arith)
region_diff-changes (suc fuel) store s a b region enough =
    elim (next_entry-Stepped (suc fuel) store s a b region enough) [
      | inl (s', run, none_left) ↦ rw (region_diff, run, none_left) refl
      | inr (e, s', a', b', run, split, region', shorter) ↦
          rw (region_diff, run, split)
            (ap (λ d. yields e d) (region_diff-changes fuel store s' a' b' region' (omega arith)))
    ]
