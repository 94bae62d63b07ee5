-- ===== src/GraphKeys/Range.antt =====
-- The half-open range of `prefix_successor` in graph_keys.rs, and the keys with the prefix.
use acetone.Prelude.{
  ℕ, ◌<◌, ◌+◌, ◌≡◌, refl, ◌∙◌, Bool, true, false, not, ◌&&◌, List, [], ◌∷◌, ◌++◌, Option, none,
  some,
}
use acetone.Prelude.{lt, eq, gt, Ordering, ◌==◌, if◌then◌else◌, arith}
use acetone.Prelude.Bytes.{bytes_cmp, IsBytes}
use acetone.GraphKeys.Successor.{reverse_onto, successor_loop, prefix_successor}

unfoldable pub starts_with : List ℕ → List ℕ → Bool
starts_with [] x = true
starts_with (b ∷ bs) [] = false
starts_with (b ∷ bs) (c ∷ cs) = (b == c) && starts_with bs cs

abbrev is_below : Ordering → Bool
is_below lt = true
is_below eq = false
is_below gt = false

-- Whether a key lies in `from..to`, where no `to` is no bound.
unfoldable pub in_range : List ℕ → Option (List ℕ) → List ℕ → Bool
in_range from none x = not (is_below (bytes_cmp x from))
in_range from (some to) x = not (is_below (bytes_cmp x from)) && is_below (bytes_cmp x to)

-- The successor from the first byte on.
step : ℕ → Option (List ℕ) → Option (List ℕ)
step b (some t) = some (b ∷ t)
step b none = if b == 0xff then none else some ((b + 1) ∷ [])

forward : List ℕ → Option (List ℕ)
unfolding step
forward [] = none
forward (b ∷ bs) = step b (forward bs)

behind : List ℕ → Option (List ℕ) → Option (List ℕ)
behind acc (some t) = some (reverse_onto acc t)
behind acc none = successor_loop acc

behind-step :
    (b : ℕ) (acc : List ℕ) (o : Option (List ℕ)) → behind (b ∷ acc) o ≡ behind acc (step b o)
unfolding behind step successor_loop
behind-step b acc (some t) = refl
behind-step b acc none = ground arith

loop-forward : (p acc : List ℕ) → successor_loop (reverse_onto p acc) ≡ behind acc (forward p)
unfolding behind forward
loop-forward [] acc = refl
loop-forward (b ∷ bs) acc = loop-forward bs (b ∷ acc) ∙ behind-step b acc (forward bs)

behind_nothing : (o : Option (List ℕ)) → behind [] o ≡ o
unfolding behind successor_loop
behind_nothing none = refl
behind_nothing (some t) = refl

in_range-step :
    (b c : ℕ) (bs cs : List ℕ) (o : Option (List ℕ))
    → b < 256
    → c < 256
    → in_range (b ∷ bs) (step b o) (c ∷ cs) ≡ ((b == c) && in_range bs o cs)
unfolding in_range step bytes_cmp
in_range-step b c bs [] none hb hc = ground arith
in_range-step b c bs (d ∷ ds) none hb hc = ground arith
in_range-step b c bs cs (some t) hb hc = ground arith

in_range-nothing : (b : ℕ) (bs : List ℕ) (o : Option (List ℕ)) → in_range (b ∷ bs) o [] ≡ false
unfolding in_range bytes_cmp
in_range-nothing b bs none = refl
in_range-nothing b bs (some t) = refl

starts_with-forward :
    (p x : List ℕ) → IsBytes p → IsBytes x → starts_with p x ≡ in_range p (forward p) x
unfolding starts_with forward
starts_with-forward [] [] hp hx = unfold in_range bytes_cmp in refl
starts_with-forward [] (c ∷ cs) hp hx = unfold in_range bytes_cmp in refl
starts_with-forward (b ∷ bs) [] hp hx = rw (in_range-nothing b bs (step b (forward bs))) refl
starts_with-forward (b ∷ bs) (c ∷ cs) (hb, hbs) (hc, hcs) =
    rw (in_range-step b c bs cs (forward bs) hb hc, starts_with-forward bs cs hbs hcs) refl

-- A scan over `prefix..prefix_successor(prefix)`, in the order of byte strings, sees exactly the keys
-- that start with the prefix. Where there is no successor the scan has no upper bound.
pub starts_with-prefix_successor :
    (p x : List ℕ) → IsBytes p → IsBytes x → starts_with p x ≡ in_range p (prefix_successor p) x
unfolding prefix_successor
starts_with-prefix_successor p x hp hx =
    rw (loop-forward p [], behind_nothing (forward p)) (starts_with-forward p x hp hx)

-- A key starts with a prefix where it is the prefix and more bytes, and only there.
pub starts_with-append : (p r : List ℕ) → starts_with p (p ++ r) ≡ true
unfolding starts_with
starts_with-append [] r = refl
starts_with-append (b ∷ bs) r = rw (starts_with-append bs r) (ground arith)

pub starts_with_split : (p x : List ℕ) → starts_with p x ≡ true → (rest : List ℕ) × (x ≡ p ++ rest)
unfolding starts_with
starts_with_split [] x e = (x, refl)
starts_with_split (b ∷ bs) [] e = cc
starts_with_split (b ∷ bs) (c ∷ cs) e =
    let (same, e') = both e in
    let (rest, split) = starts_with_split bs cs e' in (rest, rw (same, split))
  where
    both : (((b == c) && starts_with bs cs) ≡ true) → (b ≡ c) × (starts_with bs cs ≡ true)
    both h = ground arith
