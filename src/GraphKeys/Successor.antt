-- ===== src/GraphKeys/Successor.antt =====
-- `prefix_successor` of graph_keys.rs: the end of the range of keys with a prefix.
use acetone.Prelude.{ℕ, ◌+◌, List, [], ◌∷◌, Option, none, some, ◌==◌, if◌then◌else◌}

abbrev pub reverse_onto : List ℕ → List ℕ → List ℕ
reverse_onto [] acc = acc
reverse_onto (b ∷ bs) acc = reverse_onto bs (b ∷ acc)

-- `while let Some(&last) = succ.last()`, over the buffer from its last byte on.
unfoldable pub successor_loop : List ℕ → Option (List ℕ)
successor_loop [] = none
successor_loop (last ∷ front) =
    if last == 0xff then successor_loop front else some (reverse_onto ((last + 1) ∷ front) [])

unfoldable pub prefix_successor : List ℕ → Option (List ℕ)
unfolding successor_loop
prefix_successor prefix = successor_loop (reverse_onto prefix [])
