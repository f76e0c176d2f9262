-- ===== src/Signal/Lookup.antt =====
-- lookup_by_name and lookup_by_num of src/signal.c agree with one another and with the table.
use lua_testcase.Common.{
  ℕ, ◌≡◌, refl, Bool, true, false, not, ◌&&◌, ◌↔◌, inl, inr, String, List, [], ◌∷◌, some, arith,
  Option-cases, IsOneOf,
}
use lua_testcase.Common.Int.{ℤ, eqb_ℤ→eq}
use lua_testcase.Signal.{
  Entry, Platform, signal_names, entries, signals, fold_case, eq_bytes, strcasecmp, lookup_by_name,
  lookup_by_num,
}

eq_bytes_refl : (xs : List ℕ) → eq_bytes xs xs ≡ true
eq_bytes_refl [] = refl
eq_bytes_refl (x ∷ xs) = ground (arith, eq_bytes_refl xs)

eq_bytes→eq : (xs ys : List ℕ) → eq_bytes xs ys ≡ true → xs ≡ ys
eq_bytes→eq [] [] h = refl
eq_bytes→eq [] (y ∷ ys) h = cc
eq_bytes→eq (x ∷ xs) [] h = cc
eq_bytes→eq (x ∷ xs) (y ∷ ys) h = ground (arith, eq_bytes→eq xs ys)

-- No two names of the list are the same but for case.
abbrev absent : String → List String → Bool
absent n [] = true
absent n (x ∷ xs) = not (strcasecmp n x) && absent n xs

abbrev distinct : List String → Bool
distinct [] = true
distinct (n ∷ ns) = absent n ns && distinct ns

signal_names-distinct : distinct signal_names ≡ true
unfolding fold_case
signal_names-distinct = refl

absent→false :
    (m n : String) (ns : List String) → absent m ns ≡ true → IsOneOf n ns → strcasecmp m n ≡ false
absent→false m n [] h i = absurd i
absent→false m n (x ∷ xs) h (inl e) = rw e (ground arith)
absent→false m n (x ∷ xs) h (inr i) = absent→false m n xs (ground arith) i

-- Each name of the table is found, in whatever case it is asked for.
lookup_by_name-entries :
    (p : Platform) (ns : List String) (n s : String) (v : ℤ)
    → distinct ns ≡ true
    → IsOneOf n ns
    → p n ≡ some v
    → fold_case s ≡ fold_case n
    → lookup_by_name (entries p ns) s ≡ some (record { name = n; num = v })
unfolding lookup_by_name entries
lookup_by_name-entries p [] n s v d i pv f = absurd i
lookup_by_name-entries p (m ∷ ns) n s v d (inl e) pv f =
    let pm : p m ≡ some v = rw (← e) pv in
    rw (pm, entries) (rw (f, e, eq_bytes_refl (fold_case m)) refl)
lookup_by_name-entries p (m ∷ ns) n s v d (inr i) pv f =
    let rest : lookup_by_name (entries p ns) s ≡ some (record { name = n; num = v }) =
      lookup_by_name-entries p ns n s v (ground arith) i pv f in
    let other : strcasecmp m s ≡ false = rw f (absent→false m n ns (ground arith) i) in
    elim (Option-cases (p m)) [
      | inl e ↦ rw (e, entries) rest
      | inr (u, e) ↦ rw (e, entries) (rw other rest)
    ]

-- What is found stands in the table.
found_by_name :
    (p : Platform) (ns : List String) (s : String) (e : Entry)
    → lookup_by_name (entries p ns) s ≡ some e
    → IsOneOf e.name ns × (p e.name ≡ some e.num) × (fold_case s ≡ fold_case e.name)
unfolding lookup_by_name entries
found_by_name p [] s e h = cc
found_by_name p (m ∷ ns) s e h = elim (Option-cases (p m)) [
  | inl q ↦ let r = found_by_name p ns s e (rw (q, entries) at h) in (inr r.0, r.1, r.2)
  | inr (u, q) ↦
      let h' = (rw (q, entries) at h) in
      ground (arith, found_by_name p ns s e, eq_bytes→eq (fold_case m) (fold_case s))
]

found_by_num :
    (p : Platform) (ns : List String) (v : ℤ) (e : Entry)
    → lookup_by_num (entries p ns) v ≡ some e
    → IsOneOf e.name ns × (p e.name ≡ some e.num) × (e.num ≡ v)
unfolding lookup_by_num entries
found_by_num p [] v e h = cc
found_by_num p (m ∷ ns) v e h = elim (Option-cases (p m)) [
  | inl q ↦ let r = found_by_num p ns v e (rw (q, entries) at h) in (inr r.0, r.1, r.2)
  | inr (u, q) ↦
      let h' = (rw (q, entries) at h) in ground (arith, found_by_num p ns v e, eqb_ℤ→eq u v)
]

-- lookup_by_name finds an entry if and only if it is a row of SIGNALS that the system defines and its
-- name is the text that is asked for, but for case.
pub lookup_by_name_iff :
    (p : Platform) (s : String) (e : Entry)
    → (lookup_by_name (signals p) s ≡ some e)
      ↔ (IsOneOf e.name signal_names × (p e.name ≡ some e.num) × (fold_case s ≡ fold_case e.name))
unfolding signals
lookup_by_name_iff p s e = (
  λ h. found_by_name p signal_names s e h,
  λ h. lookup_by_name-entries p signal_names e.name s e.num signal_names-distinct h.0 h.1 h.2,
)

-- The name that lookup_by_num gives for a number leads lookup_by_name back to the same row, which has
-- that number, on every system.
pub lookup_by_name-lookup_by_num :
    (p : Platform) (v : ℤ) (e : Entry)
    → lookup_by_num (signals p) v ≡ some e
    → (lookup_by_name (signals p) e.name ≡ some e) × (e.num ≡ v)
unfolding signals
lookup_by_name-lookup_by_num p v e h =
    let (i, q, n) = found_by_num p signal_names v e h in
    ((lookup_by_name_iff p e.name e).1 (i, q, refl), n)
