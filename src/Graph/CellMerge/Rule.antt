-- ===== src/Graph/CellMerge/Rule.antt =====
-- The three-way rule at one name, and the loop over the names.
use acetone.Prelude.{
  ◌≡◌, ◌⊎◌, inl, inr, refl, sym, ◌∙◌, subst, true, false, List, [], ◌∷◌, Option, none, some, All,
  by_test,
}
use acetone.Prelude.Result.{ok, bind_parts}
use acetone.Prolly.Types.{Bytes, bytes_eq}
use acetone.Prolly.Ordered.{find, bytes_eq_self, find-hit, find-skip, eq_of_bytes_eq}
use acetone.Records.{Property}
use acetone.Graph.CellMerge.{
  PropertyConflict, Merged, Fallible, get, contains, resolved, held, conflict_at, merge_names,
}
use acetone.Graph.CellMerge.ValueEq.{IsStored, IsStoredIn, Agree, opt_eq_cases}
use acetone.Model.{Value}

pub ok_same : {A : Type 0} {a b : A} → ◌≡◌ {A = Fallible A} (ok a) (ok b) → a ≡ b
ok_same e = cc

-- What the merge makes of one name: a value to hold, if any, or `none` for a conflict.
abbrev pub Rule : Option Value → Option Value → Option Value → Option (Option Value) → Type 0
Rule base ours theirs r =
    (Agree ours theirs × (r ≡ some ours))
    ⊎ ((¬ Agree ours theirs) × Agree ours base × (r ≡ some theirs))
    ⊎ ((¬ Agree ours theirs) × (¬ Agree ours base) × Agree theirs base × (r ≡ some ours))
    ⊎ ((¬ Agree ours theirs) × (¬ Agree ours base) × (¬ Agree theirs base) × (r ≡ none))

pub resolved-Rule :
    (base ours theirs : Option Value)
    → IsStoredIn base
    → IsStoredIn ours
    → IsStoredIn theirs
    → (r : Option (Option Value)) × (resolved base ours theirs ≡ ok r) × Rule base ours theirs r
unfolding resolved
resolved-Rule base ours theirs hb ho ht = elim (opt_eq_cases ours theirs ho ht) [
  | inl (agree, run) ↦ (some ours, rw run refl, inl (agree, refl))
  | inr (clash, run) ↦ elim (opt_eq_cases ours base ho hb) [
    | inl (kept, run') ↦ (some theirs, rw (run, run') refl, inr (inl (clash, kept, refl)))
    | inr (changed, run') ↦ elim (opt_eq_cases theirs base ht hb) [
      | inl (kept, run'') ↦
          (some ours, rw (run, run', run'') refl, inr (inr (inl (clash, changed, kept, refl))))
      | inr (changed', run'') ↦
          (none, rw (run, run', run'') refl, inr (inr (inr (clash, changed, changed', refl))))
    ]
  ]
]

abbrev pub value_of : Option (Option Value) → Option Value
value_of none = none
value_of (some v) = v

abbrev pub conflict_of : PropertyConflict → Option (Option Value) → Option PropertyConflict
conflict_of c none = some c
conflict_of c (some v) = none

pub get_stored :
    (ps : List Property) (k : Bytes) → All (λ p. IsStored p.value) ps → IsStoredIn (get ps k)
unfolding get
get_stored [] k h = tt
get_stored (p ∷ ps) k (h, hs) =
    by_test (bytes_eq k p.name) (λ e. rw e h) (λ e. rw e (get_stored ps k hs))

-- What a merge holds at a name.
abbrev pub Holds : Bytes → Merged → Option Value → Option PropertyConflict → Type 0
Holds k m v c = (get m.properties k ≡ v) × (find PropertyConflict.property k m.conflicts ≡ c)

-- A name that is not the first one is looked up behind it.
held_behind :
    (c : PropertyConflict) (r : Option (Option Value)) (m : Merged) (k : Bytes) (v : Option Value)
    (found : Option PropertyConflict)
    → bytes_eq k c.property ≡ false
    → Holds k m v found
    → Holds k (held c r m) v found
unfolding held get
held_behind c none m k v found e (a, b) =
    (a, find-skip PropertyConflict.property k c m.conflicts e ∙ b)
held_behind c (some none) m k v found e (a, b) = (a, b)
held_behind c (some (some w)) m k v found e (a, b) = (rw e a, b)

held_here :
    (c : PropertyConflict) (r : Option (Option Value)) (m : Merged) (k : Bytes)
    → bytes_eq k c.property ≡ true
    → Holds k m (value_of r) (conflict_of c r) ⊎ Holds k m none none
    → Holds k (held c r m) (value_of r) (conflict_of c r)
unfolding held get
held_here c none m k e (inl (a, b)) = (a, find-hit PropertyConflict.property k c m.conflicts e)
held_here c none m k e (inr (a, b)) = (a, find-hit PropertyConflict.property k c m.conflicts e)
held_here c (some none) m k e (inl (a, b)) = (a, b)
held_here c (some none) m k e (inr (a, b)) = (a, b)
held_here c (some (some w)) m k e (inl (a, b)) = (rw e refl, b)
held_here c (some (some w)) m k e (inr (a, b)) = (rw e refl, b)

module _ (base ours theirs : List Property) (hb : All (λ p. IsStored p.value) base)
    (ho : All (λ p. IsStored p.value) ours) (ht : All (λ p. IsStored p.value) theirs) where
  pub resolved_at :
      (k : Bytes)
      → (r : Option (Option Value)) × (resolved (get base k) (get ours k) (get theirs k) ≡ ok r)
        × Rule (get base k) (get ours k) (get theirs k) r
  resolved_at k =
      resolved-Rule (get base k) (get ours k) (get theirs k) (get_stored base k hb)
        (get_stored ours k ho) (get_stored theirs k ht)

  pub merge_names_runs :
      (names : List Bytes) → (m : Merged) × (merge_names base ours theirs names ≡ ok m)
  unfolding merge_names
  merge_names_runs [] = (record { properties = []; conflicts = [] }, refl)
  merge_names_runs (n ∷ ns) =
      let (r, run, _) = resolved_at n in
      let (m, runs) = merge_names_runs ns in
      (held (conflict_at base ours theirs n) r m, rw (run, runs) refl)

  -- What the loop over some names holds at a name, which stands among them or not.
  abbrev At : Bytes → Option (Option Value) → List Bytes → Merged → Type 0
  At k r names m =
      ((contains names k ≡ true)
        × Holds k m (value_of r) (conflict_of (conflict_at base ours theirs k) r))
      ⊎ ((contains names k ≡ false) × Holds k m none none)

  At-first :
      (k n : Bytes) (r r' : Option (Option Value)) (names : List Bytes) (m later : Merged)
      → resolved (get base k) (get ours k) (get theirs k) ≡ ok r
      → bytes_eq k n ≡ true
      → At k r names later
      → resolved (get base n) (get ours n) (get theirs n) ≡ ok r'
      → held (conflict_at base ours theirs n) r' later ≡ m
      → At k r (n ∷ names) m
  unfolding contains
  At-first k n r r' names m later e h at run same =
      let first : k ≡ n = eq_of_bytes_eq k n h in
      let run' : resolved (get base k) (get ours k) (get theirs k) ≡ ok r' =
        subst (λ j. resolved (get base j) (get ours j) (get theirs j) ≡ ok r') (sym first) run in
      let value : r ≡ r' = ok_same (sym e ∙ run') in
      let same' : held (conflict_at base ours theirs k) r later ≡ m =
        subst (λ x. held (conflict_at base ours theirs k) x later ≡ m) (sym value)
          (subst (λ j. held (conflict_at base ours theirs j) r' later ≡ m) (sym first) same) in
      let here : Holds k later (value_of r) (conflict_of (conflict_at base ours theirs k) r)
          ⊎ Holds k later none none =
        elim at [ inl (_, found) ↦ inl found | inr (_, found) ↦ inr found ] in
      inl (
        rw h refl,
        subst (λ x. Holds k x (value_of r) (conflict_of (conflict_at base ours theirs k) r)) same'
            (held_here (conflict_at base ours theirs k) r later k (bytes_eq_self k) here),
      )

  pub merge_names-At :
      (k : Bytes) (r : Option (Option Value))
      → resolved (get base k) (get ours k) (get theirs k) ≡ ok r
      → (names : List Bytes) (m : Merged) → merge_names base ours theirs names ≡ ok m
      → At k r names m
  unfolding contains merge_names find
  merge_names-At k r e [] m run =
      subst (At k r []) (ok_same run) (unfold get in inr (refl, (refl, refl)))
  merge_names-At k r e (n ∷ ns) m run =
      let (r', e1, e2) = bind_parts (resolved (get base n) (get ours n) (get theirs n)) _ run in
      let (later, e3, e4) = bind_parts (merge_names base ours theirs ns) _ e2 in
      let at = merge_names-At k r e ns later e3 in
      by_test (bytes_eq k n) (λ h. At-first k n r r' ns m later e h at e1 (ok_same e4))
        (λ h.
          let skip = held_behind (conflict_at base ours theirs n) r' later k in
          subst (At k r (n ∷ ns)) (ok_same e4) (elim at [
            | inl (among, found) ↦ inl (rw h among, skip _ _ h found)
            | inr (away, found) ↦ inr (rw h away, skip _ _ h found)
          ]))
