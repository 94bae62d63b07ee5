-- ===== src/Graph/CellMerge/Names.antt =====
-- The sets of names of cell_merge.rs: their elements and their order.
use acetone.Prelude.{Bool, false, ◌&&◌, ◌||◌, List, [], ◌∷◌, none, by_test, by_order, arith}
use acetone.Prelude.{lt, eq, gt, ◌≡◌, refl, ap, sym, ◌∙◌}
use acetone.Prelude.Bytes.{bytes_cmp, eq_of_bytes_cmp}
use acetone.Prolly.Types.{Bytes, bytes_eq}
use acetone.Prolly.Ordered.{lt_of_gt, eq_of_bytes_eq, Above, IsAscending, Above-weaken}
use acetone.Records.{Property}
use acetone.Graph.CellMerge.{get, insert, extend, contains, names_of, filter}

-- The three branches of an insertion.
module _ (n m : Bytes) (ms : List Bytes) where
  insert_before : bytes_cmp n m ≡ lt → insert n (m ∷ ms) ≡ n ∷ m ∷ ms
  unfolding insert
  insert_before h = rw (insert, h) refl

  insert_there : bytes_cmp n m ≡ eq → insert n (m ∷ ms) ≡ m ∷ ms
  unfolding insert
  insert_there h = rw (insert, h) refl

  insert_behind : bytes_cmp n m ≡ gt → insert n (m ∷ ms) ≡ m ∷ insert n ms
  unfolding insert
  insert_behind h = rw (insert, h) refl

pub first_or : (a b c : Bool) → (a || (b || c)) ≡ (b || (a || c))
first_or a b c = ground arith

pub twice_or : (a b : Bool) → (a || (a || b)) ≡ (a || b)
twice_or a b = ground arith

pub contains-insert :
    (k n : Bytes) (set : List Bytes) → contains (insert n set) k ≡ (bytes_eq k n || contains set k)
unfolding contains
contains-insert k n [] = unfold insert in refl
contains-insert k n (m ∷ ms) =
    by_order (bytes_cmp n m) (λ h. rw (insert_before n m ms h) refl)
      (λ h.
        rw (insert_there n m ms h, eq_of_bytes_cmp n m h)
          (sym (twice_or (bytes_eq k m) (contains ms k))))
      (λ h.
        rw (insert_behind n m ms h, contains-insert k n ms)
          (first_or (bytes_eq k m) (bytes_eq k n) (contains ms k)))

regroup : (a b c : Bool) → (a || (b || c)) ≡ ((b || a) || c)
regroup a b c = ground arith

pub contains-extend :
    (k : Bytes) (names set : List Bytes)
    → contains (extend names set) k ≡ (contains names k || contains set k)
unfolding contains extend
contains-extend k [] set = refl
contains-extend k (n ∷ ns) set =
    contains-extend k ns (insert n set)
    ∙ ap (λ b. contains ns k || b) (contains-insert k n set)
    ∙ regroup (contains ns k) (bytes_eq k n) (contains set k)

pub get_absent :
    (ps : List Property) (k : Bytes) → contains (names_of ps) k ≡ false → get ps k ≡ none
unfolding contains get
get_absent [] k e = refl
get_absent (p ∷ ps) k e =
    by_test (bytes_eq k p.name) (λ h. cc (rw h at e)) (λ h. rw h (get_absent ps k (rw h at e)))

abbrev pub same : Bytes → Bytes
same k = k

Above-insert :
    (j n : Bytes) (set : List Bytes)
    → bytes_cmp j n ≡ lt
    → Above same j set
    → Above same j (insert n set)
Above-insert j n [] h p = unfold insert in (h, tt)
Above-insert j n (m ∷ ms) h (p, ps) =
    by_order (bytes_cmp n m) (λ o. rw (insert_before n m ms o) (h, (p, ps)))
      (λ o. rw (insert_there n m ms o) (p, ps))
      (λ o. rw (insert_behind n m ms o) (p, Above-insert j n ms h ps))

pub insert-IsAscending :
    (n : Bytes) (set : List Bytes) → IsAscending same set → IsAscending same (insert n set)
unfolding IsAscending
insert-IsAscending n [] asc = unfold insert in (tt, tt)
insert-IsAscending n (m ∷ ms) (above, asc) =
    by_order (bytes_cmp n m)
      (λ o. rw (insert_before n m ms o) ((o, Above-weaken same n m ms o above), (above, asc)))
      (λ o. rw (insert_there n m ms o) (above, asc))
      (λ o.
        rw (insert_behind n m ms o)
          (Above-insert m n ms (lt_of_gt n m o) above, insert-IsAscending n ms asc))

pub extend-IsAscending :
    (names set : List Bytes) → IsAscending same set → IsAscending same (extend names set)
unfolding extend
extend-IsAscending [] set asc = asc
extend-IsAscending (n ∷ ns) set asc =
    extend-IsAscending ns (insert n set) (insert-IsAscending n set asc)

Above-filter :
    (keep : Bytes → Bool) (j : Bytes) (ns : List Bytes)
    → Above same j ns
    → Above same j (filter keep ns)
Above-filter keep j [] p = tt
Above-filter keep j (n ∷ ns) (p, ps) =
    by_test (keep n) (λ h. rw h (p, Above-filter keep j ns ps))
      (λ h. rw h (Above-filter keep j ns ps))

pub filter-IsAscending :
    (keep : Bytes → Bool) (ns : List Bytes)
    → IsAscending same ns
    → IsAscending same (filter keep ns)
unfolding IsAscending
filter-IsAscending keep [] asc = tt
filter-IsAscending keep (n ∷ ns) (above, asc) =
    by_test (keep n) (λ h. rw h (Above-filter keep n ns above, filter-IsAscending keep ns asc))
      (λ h. rw h (filter-IsAscending keep ns asc))

pub contains-filter :
    (keep : Bytes → Bool) (ns : List Bytes) (k : Bytes)
    → contains (filter keep ns) k ≡ (keep k && contains ns k)
unfolding contains
contains-filter keep [] k = ground arith
contains-filter keep (n ∷ ns) k =
    by_test (bytes_eq k n)
      (λ h.
        by_test (keep n) (λ y. rw (y, h, eq_of_bytes_eq k n h, y) refl)
          (λ y. rw (y, contains-filter keep ns k, h, eq_of_bytes_eq k n h, y) refl))
      (λ h.
        by_test (keep n) (λ y. rw (y, h) (contains-filter keep ns k))
          (λ y. rw (y, h) (contains-filter keep ns k)))
