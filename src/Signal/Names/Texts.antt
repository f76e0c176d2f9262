-- ===== src/Signal/Names/Texts.antt =====
-- What the table of signames_lua in src/signal.c has at texts.
use lua_testcase.Common.{
  ◌≡◌, ◌↔◌, refl, String, List, [], ◌∷◌, Option, none, some, arith, str_eq, eq_iff, if◌then◌else◌,
  Option-cases, inl, inr, IsOneOf,
}
use lua_testcase.Common.Int.{ℤ}
use lua_testcase.Signal.{Entry, Platform, signal_names, entries, signals}
use lua_testcase.Signal.Names.{
  text, integer, Slot, Table, raw_get, add_entry, signames_from, signames, raw_get-raw_set,
}

-- The number that the table of signals gives a name, by the last row with that name.
number_of : String → List Entry → Option ℤ
number_of s [] = none
number_of s (e ∷ es) = elim (number_of s es) [
  | some v ↦ some v
  | none ↦ if str_eq e.name s then some e.num else none
]

abbrev or_else : Option ℤ → Option Slot → Option Slot
or_else none o = o
or_else (some v) o = some (integer v)

raw_get-add_entry_text :
    (e : Entry) (t : Table) (s : String)
    → raw_get (text s) (add_entry e t)
      ≡ (if str_eq e.name s then some (integer e.num) else raw_get (text s) t)
unfolding add_entry
raw_get-add_entry_text e t s = simp raw_get-raw_set

raw_get-signames_from_text :
    (es : List Entry) (t : Table) (s : String)
    → raw_get (text s) (signames_from es t) ≡ or_else (number_of s es) (raw_get (text s) t)
unfolding signames_from number_of
raw_get-signames_from_text [] t s = refl
raw_get-signames_from_text (e ∷ es) t s =
    ground (arith, raw_get-signames_from_text es (add_entry e t) s, raw_get-add_entry_text e t s)

entries-number_of :
    (p : Platform) (ns : List String) (s : String) (v : ℤ)
    → number_of s (entries p ns) ≡ some v
    → IsOneOf s ns × (p s ≡ some v)
unfolding number_of entries
entries-number_of p [] s v h = cc
entries-number_of p (m ∷ ns) s v h = elim (Option-cases (p m)) [
  | inl q ↦ let r = entries-number_of p ns s v (rw (q, entries) at h) in (inr r.0, r.1)
  | inr (u, q) ↦
      let h' = (rw (q, entries) at h) in ground (arith, entries-number_of p ns s v, eq_iff m s)
]

number_of-entries :
    (p : Platform) (ns : List String) (s : String) → IsOneOf s ns → number_of s (entries p ns) ≡ p s
unfolding number_of entries
number_of-entries p [] s i = absurd i
number_of-entries p (m ∷ ns) s (inr i) = elim (Option-cases (p m)) [
  | inl q ↦ rw (q, entries) (number_of-entries p ns s i)
  | inr (u, q) ↦ rw (q, entries) (ground (arith, number_of-entries p ns s i, eq_iff m s))
]
number_of-entries p (m ∷ ns) s (inl e) = elim (Option-cases (number_of s (entries p ns))) [
  | inl z ↦ elim (Option-cases (p m)) [
    | inl q ↦ rw (q, entries) (rw (z, e, q))
    | inr (u, q) ↦ rw (q, entries) (ground (arith, eq_iff m s))
  ]
  | inr (v, z) ↦
      let r = entries-number_of p ns s v z in
      elim (Option-cases (p m)) [
        | inl q ↦ rw (q, entries) (rw (z, r.1))
        | inr (u, q) ↦ rw (q, entries) (rw (z, number_of) (rw r.1))
      ]
]

or_else_iff :
    (p : Platform) (ns : List String) (s : String) (o : Slot)
    → (or_else (number_of s (entries p ns)) none ≡ some o)
      ↔ ((v : ℤ) × (o ≡ integer v) × IsOneOf s ns × (p s ≡ some v))
or_else_iff p ns s o = (from, to)
  where
    from :
        or_else (number_of s (entries p ns)) none ≡ some o
        → (v : ℤ) × (o ≡ integer v) × IsOneOf s ns × (p s ≡ some v)
    from h = elim (Option-cases (number_of s (entries p ns))) [
      | inl z ↦ absurd (cc)
      | inr (v, z) ↦ let r = entries-number_of p ns s v z in (v, cc, r.0, r.1)
    ]

    to :
        ((v : ℤ) × (o ≡ integer v) × IsOneOf s ns × (p s ≡ some v))
        → or_else (number_of s (entries p ns)) none ≡ some o
    to (v, e, i, q) = rw (number_of-entries p ns s i, q, e)

-- In the table of signames a text stands for a number if and only if it is a name of SIGNALS that the
-- system defines as that number, and no text stands for anything else.
pub signames_of_text :
    (p : Platform) (s : String) (o : Slot)
    → (raw_get (text s) (signames (signals p)) ≡ some o)
      ↔ ((v : ℤ) × (o ≡ integer v) × IsOneOf s signal_names × (p s ≡ some v))
unfolding signames signals raw_get
signames_of_text p s o =
    rw (raw_get-signames_from_text (entries p signal_names) [] s) (or_else_iff p signal_names s o)
