-- ===== src/Registry/Added.antt =====
-- What is in the registry after calls of add.
use lua_testcase.Common.{
  ℕ, Bool, true, false, String, List, [], ◌∷◌, Option, none, some, if◌then◌else◌, str_eq, ◌≡◌, refl,
  arith, eq_iff, inl, inr, Option-cases, Bool-cases, ◌⊎◌, ◌∙◌, sym, ap,
}
use lua_testcase.Registry.{
  Table, lookup, assign, Stat, Entry, File, Registry, Addition, file_of, enter, name_of, func_of,
  add, added, Refusal, add_checked,
}
use lua_testcase.Lua.{Value}

-- What a call adds, and to which file, where its arguments are as they should be and the file is found.
abbrev pub entry_of : String ⊎ Refusal → ℕ ⊎ Refusal → ℕ → Stat ⊎ Value → Option (Stat × Entry)
entry_of (inl name) (inl f) n (inl s) = some (s, record { name = name; func = f; lineno = n })
entry_of _ _ _ _ = none

abbrev pub accepted : Addition → Option (Stat × Entry)
accepted a = entry_of (name_of a.name) (func_of a.func) a.lineno a.stat

abbrev entry_in : String → String → Option (Stat × Entry) → Option Entry
entry_in p k none = none
entry_in p k (some (s, e)) =
    if str_eq s.pathname p then (if str_eq e.name k then some e else none) else none

abbrev is_in : String → Option (Stat × Entry) → Bool
is_in p none = false
is_in p (some (s, e)) = str_eq s.pathname p

abbrev pub or_else : {A : Type 0} → Option A → Option A → Option A
or_else (some a) b = some a
or_else none b = b

-- The first function that is added to the file of this name under this name.
abbrev pub first : String → String → List Addition → Option Entry
first p k [] = none
first p k (a ∷ l) = or_else (entry_in p k (accepted a)) (first p k l)

-- Whether any function is added to the file.
abbrev pub any_in : String → List Addition → Bool
any_in p [] = false
any_in p (a ∷ l) = if is_in p (accepted a) then true else any_in p l

abbrev pub entry_at : String → Option File → Option Entry
entry_at k none = none
entry_at k (some f) = lookup k f.tests

abbrev pub find : String → String → Registry → Option Entry
find p k r = entry_at k (lookup p r)

abbrev pub is_some : {A : Type 0} → Option A → Bool
is_some none = false
is_some (some a) = true

pub lookup-assign :
    {A : Type 0} (j k : String) (a : A) (t : Table A)
    → lookup j (assign k a t) ≡ (if str_eq k j then some a else lookup j t)
unfolding lookup assign
lookup-assign j k a [] = refl
lookup-assign j k a ((i, b) ∷ t) =
    ground (arith, lookup-assign j k a t, eq_iff i k, eq_iff i j, eq_iff k j)

or_else-none : {A : Type 0} (x : Option A) → or_else x none ≡ x
or_else-none none = refl
or_else-none (some a) = refl

pub lookup-file_of :
    (k : String) (s : Stat) (f : Option File) → lookup k (file_of s f).tests ≡ entry_at k f
unfolding lookup
lookup-file_of k s none = refl
lookup-file_of k s (some f) = refl

-- enter sets the file to one that keeps what is under the name, and has the entry where nothing is.
enter_lem :
    (s : Stat) (e : Entry) (r : Registry)
    → (g : File) × ((enter s e r).1 ≡ assign s.pathname g r)
      × ((k : String)
          → lookup k g.tests
            ≡ or_else (find s.pathname k r) (if str_eq e.name k then some e else none))
unfolding enter
enter_lem s e r =
    let f = file_of s (lookup s.pathname r) in
    let same = λ (k : String). lookup-file_of k s (lookup s.pathname r) in
    elim (Option-cases (lookup e.name f.tests)) [
      | inl new ↦ (
        record f { tests = assign e.name e f.tests },
        ground arith,
        λ k.
            lookup-assign k e.name e f.tests ∙ ground (arith, same k, same e.name, eq_iff e.name k),
      )
      | inr (old, there) ↦
          (f, ground arith, λ k. same k ∙ ground (arith, same e.name, eq_iff e.name k))
    ]

find-enter :
    (p k : String) (s : Stat) (e : Entry) (r : Registry)
    → (find p k (enter s e r).1 ≡ or_else (find p k r) (entry_in p k (some (s, e))))
      × (is_some (lookup p (enter s e r).1)
          ≡ (if is_some (lookup p r) then true else str_eq s.pathname p))
find-enter p k s e r =
    let (g, step, has) = enter_lem s e r in
    let put = lookup-assign p s.pathname g r in
    elim (Bool-cases (str_eq s.pathname p)) [
      | inl same ↦
          let one : s.pathname ≡ p = ground (arith, eq_iff s.pathname p) in
          let at : find s.pathname k r ≡ find p k r = ap (λ q. find q k r) one in
          rw (step, put, same) (has k ∙ rw at refl, ground arith)
      | inr other ↦ rw (step, put, other) (sym (or_else-none (find p k r)), ground arith)
    ]

find-add :
    (p k : String) (a : Addition) (r : Registry)
    → (find p k (add a r).1 ≡ or_else (find p k r) (entry_in p k (accepted a)))
      × (is_some (lookup p (add a r).1)
          ≡ (if is_some (lookup p r) then true else is_in p (accepted a)))
unfolding add add_checked
find-add p k a r = by_checks (name_of a.name) (func_of a.func) a.stat
  where
    by_checks :
        (n : String ⊎ Refusal) (f : ℕ ⊎ Refusal) (s : Stat ⊎ Value)
        → (find p k (add_checked n f a.lineno s r).1
            ≡ or_else (find p k r) (entry_in p k (entry_of n f a.lineno s)))
          × (is_some (lookup p (add_checked n f a.lineno s r).1)
              ≡ (if is_some (lookup p r) then true else is_in p (entry_of n f a.lineno s)))
    by_checks (inl n) (inl f) (inl s) =
        find-enter p k s (record { name = n; func = f; lineno = a.lineno }) r
    by_checks (inl n) (inl f) (inr e) = (sym (or_else-none (find p k r)), ground arith)
    by_checks (inl n) (inr e) s = (sym (or_else-none (find p k r)), ground arith)
    by_checks (inr e) f s = (sym (or_else-none (find p k r)), ground arith)

or_else_assoc : {A : Type 0} (x y z : Option A) → or_else (or_else x y) z ≡ or_else x (or_else y z)
or_else_assoc none y z = refl
or_else_assoc (some a) y z = refl

-- Each name has the first function that is added under it, and the files are those that one is added to.
added_lem :
    (p k : String) (l : List Addition) (r : Registry)
    → (find p k (added l r) ≡ or_else (find p k r) (first p k l))
      × (is_some (lookup p (added l r)) ≡ (if is_some (lookup p r) then true else any_in p l))
added_lem p k [] r = (sym (or_else-none (find p k r)), ground arith)
added_lem p k (a ∷ l) r =
    let (found, seen) = find-add p k a r in
    let (found', seen') = added_lem p k l (add a r).1 in
    (
      found'
          ∙ ap (λ x. or_else x (first p k l)) found
          ∙ or_else_assoc (find p k r) (entry_in p k (accepted a)) (first p k l),
      seen' ∙ rw seen (ground arith),
    )

-- What is added under a name has it as its name.
entry_in-named :
    (p k : String) (a : Option (Stat × Entry)) (e : Entry) → entry_in p k a ≡ some e → e.name ≡ k
entry_in-named p k none e h = cc
entry_in-named p k (some (s, e')) e h = ground (arith, eq_iff e'.name k)

pub first-named : (p k : String) (l : List Addition) (e : Entry) → first p k l ≡ some e → e.name ≡ k
first-named p k [] e h = cc
first-named p k (a ∷ l) e h = elim (Option-cases (entry_in p k (accepted a))) [
  | inl nothing ↦ first-named p k l e (ap (λ x. or_else x (first p k l)) (sym nothing) ∙ h)
  | inr (e', here) ↦
      entry_in-named p k (accepted a) e (here ∙ ap (λ x. or_else x (first p k l)) (sym here) ∙ h)
]

-- After calls of add, the file has under each name what was added first, and a file is there if and only if
-- something was added to it.
pub added_from_empty :
    (p k : String) (l : List Addition)
    → (find p k (added l []) ≡ first p k l) × (is_some (lookup p (added l [])) ≡ any_in p l)
unfolding lookup
added_from_empty p k l = added_lem p k l []

entry_in-is_in :
    (p k : String) (a : Option (Stat × Entry)) → is_some (entry_in p k a) ≡ true → is_in p a ≡ true
entry_in-is_in p k none h = cc
entry_in-is_in p k (some (s, e)) h = ground arith

pub first-any_in :
    (p k : String) (l : List Addition) → is_some (first p k l) ≡ true → any_in p l ≡ true
first-any_in p k [] h = cc
first-any_in p k (a ∷ l) h =
    let here = entry_in-is_in p k (accepted a) in
    let rest = first-any_in p k l in
    elim (Option-cases (entry_in p k (accepted a))) [
      | inl nothing ↦
          ground (arith, rest (ap (λ x. is_some (or_else x (first p k l))) (sym nothing) ∙ h))
      | inr (e, there) ↦ ground (arith, here (ap is_some there))
    ]
