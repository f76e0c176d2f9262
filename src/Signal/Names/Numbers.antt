-- ===== src/Signal/Names/Numbers.antt =====
-- What the table of signames_lua in src/signal.c has at numbers.
use lua_testcase.Common.{
  ◌≡◌, refl, String, List, [], ◌∷◌, ◌++◌, Option, none, some, arith, if◌then◌else◌, Bool-cases, inl,
  inr,
}
use mathlib.Core.Option
use mathlib.Core.List.{append-nil, append_assoc, head?}
use lua_testcase.Common.Int.{ℤ, eqb_ℤ, eqb_ℤ→eq, eqb_ℤ_refl}
use lua_testcase.Signal.{Entry, lookup_by_num}
use lua_testcase.Signal.Names.{
  number, string, array, Slot, Table, raw_get, add_name, add_entry, signames_from, signames,
  raw_get-raw_set,
}

-- The names of a number in the table of signals, in its order.
pub names_of : ℤ → List Entry → List String
names_of v [] = []
names_of v (e ∷ es) = let rest = names_of v es in if eqb_ℤ e.num v then e.name ∷ rest else rest

-- The value for a number with these names.
abbrev pub slot_of : List String → Option Slot
slot_of [] = none
slot_of (s ∷ []) = some (string s)
slot_of (s ∷ s' ∷ l) = some (array (s ∷ s' ∷ l))

add_name-slot_of :
    (l : List String) (s : String) → some (add_name (slot_of l) s) ≡ slot_of (l ++ s ∷ [])
unfolding add_name
add_name-slot_of [] s = refl
add_name-slot_of (x ∷ []) s = refl
add_name-slot_of (x ∷ y ∷ l) s = refl

raw_get-add_entry :
    (e : Entry) (t : Table) (v : ℤ)
    → raw_get (number v) (add_entry e t) ≡ (
        if eqb_ℤ e.num v
        then some (add_name (raw_get (number v) t) e.name)
        else raw_get (number v) t)
unfolding add_entry
raw_get-add_entry e t v = elim (Bool-cases (eqb_ℤ e.num v)) [
  | inl h ↦ rw (← eqb_ℤ→eq e.num v h) (simp (raw_get-raw_set, eqb_ℤ_refl))
  | inr h ↦ simp (raw_get-raw_set, h)
]

raw_get-signames_from :
    (es : List Entry) (t : Table) (v : ℤ) (l : List String)
    → raw_get (number v) t ≡ slot_of l
    → raw_get (number v) (signames_from es t) ≡ slot_of (l ++ names_of v es)
unfolding signames_from names_of
raw_get-signames_from [] t v l h = rw append-nil h
raw_get-signames_from (e ∷ es) t v l h = elim (Bool-cases (eqb_ℤ e.num v)) [
  | inl q ↦
      let here : raw_get (number v) (add_entry e t) ≡ slot_of (l ++ e.name ∷ []) =
        rw (raw_get-add_entry e t v, q, h) (add_name-slot_of l e.name) in
      rw q (
        rw (← append_assoc l (e.name ∷ []) (names_of v es))
          (raw_get-signames_from es (add_entry e t) v (l ++ e.name ∷ []) here))
  | inr q ↦ rw q (raw_get-signames_from es (add_entry e t) v l (rw (raw_get-add_entry e t v, q) h))
]

lookup_by_num-names_of :
    (es : List Entry) (v : ℤ) → Option.map Entry.name (lookup_by_num es v) ≡ head? (names_of v es)
unfolding lookup_by_num names_of
lookup_by_num-names_of [] v = refl
lookup_by_num-names_of (e ∷ es) v = ground (arith, lookup_by_num-names_of es v)

-- In the table of signames a number stands for the list of all names that SIGNALS gives it, in the
-- order of SIGNALS: nothing where there is none, the name where there is one, and an array where there
-- are more; and the first of them is the name that tosigname gives.
signames_of_number :
    (es : List Entry) (v : ℤ)
    → (raw_get (number v) (signames es) ≡ slot_of (names_of v es))
      × (Option.map Entry.name (lookup_by_num es v) ≡ head? (names_of v es))
unfolding signames raw_get
signames_of_number es v = (raw_get-signames_from es [] v [] refl, lookup_by_num-names_of es v)
