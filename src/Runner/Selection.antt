-- ===== src/Runner/Selection.antt =====
-- select_testcases of lib/runner.lua: the tests whose names are asked for, with how many tests each
-- name has. What it prints, of names that a file has not, is left out.
use lua_testcase.Common.{
  String, List, ℕ, ◌∷◌, Option, none, if◌then◌else◌, [], str_eq, some, suc, ◌+◌, ◌≡◌, Bool, arith,
  false, true, Bool-cases, refl, eq_iff, inl, inr,
}
use lua_testcase.Runner.{Source, Test}

-- The table from names to counts.
abbrev pub Targets : Type 0
Targets = List (String × ℕ)

unfoldable pub count_of : String → Targets → Option ℕ
count_of k [] = none
count_of k ((j, n) ∷ ts) = if str_eq j k then some n else count_of k ts

unfoldable pub set_count : String → ℕ → Targets → Targets
set_count k n [] = (k, n) ∷ []
set_count k n ((j, m) ∷ ts) = if str_eq j k then (j, n) ∷ ts else (j, m) ∷ set_count k n ts

unfoldable pub start_targets : List String → Targets → Targets
start_targets [] ts = ts
start_targets (k ∷ names) ts = start_targets names (set_count k 0 ts)

-- The loop over the tests of a file.
unfoldable pub pick : List Test → Targets → List Test × Targets
pick [] ts = ([], ts)
pick (test ∷ l) ts = elim (count_of test.name ts) [
  | none ↦ pick l ts
  | some n ↦ let (l', ts') = pick l (set_count test.name (n + 1) ts) in (test ∷ l', ts')
]

abbrev with_tests : Source → List Test → List Source → List Source
with_tests src [] l = l
with_tests src (test ∷ tests) l = record src { tests = test ∷ tests } ∷ l

-- The loop over the files.
unfoldable pub select_sources : List Source → Targets → List Source × Targets
select_sources [] ts = ([], ts)
select_sources (src ∷ list) ts =
    let (tests, ts') = pick src.tests ts in
    let (list', ts'') = select_sources list ts' in (with_tests src tests list', ts'')

unfoldable pub select_testcases : List Source → List String → List Source × Targets
select_testcases list testcases = select_sources list (start_targets testcases [])

-- Whether a name is asked for.
abbrev pub contains : List String → String → Bool
contains [] k = false
contains (j ∷ names) k = if str_eq j k then true else contains names k

-- The tests with such names, and the files that have any.
abbrev pub named_tests : List String → List Test → List Test
named_tests names [] = []
named_tests names (test ∷ l) =
    let rest = named_tests names l in if contains names test.name then test ∷ rest else rest

abbrev pub named_sources : List String → List Source → List Source
named_sources names [] = []
named_sources names (src ∷ list) =
    with_tests src (named_tests names src.tests) (named_sources names list)

-- How many tests have the name.
abbrev pub occurs : String → List Test → ℕ
occurs k [] = 0
occurs k (test ∷ l) = if str_eq test.name k then suc (occurs k l) else occurs k l

abbrev pub occurs_in : String → List Source → ℕ
occurs_in k [] = 0
occurs_in k (src ∷ list) = occurs k src.tests + occurs_in k list

-- The targets have counted so many tests of each name that is asked for.
abbrev Counts : List String → (String → ℕ) → Targets → Type 0
Counts names f ts = (k : String) → count_of k ts ≡ (if contains names k then some (f k) else none)

count_of-set_count :
    (j k : String) (n : ℕ) (ts : Targets)
    → count_of j (set_count k n ts) ≡ (if str_eq k j then some n else count_of j ts)
unfolding count_of set_count
count_of-set_count j k n [] = refl
count_of-set_count j k n ((i, m) ∷ ts) =
    ground (arith, count_of-set_count j k n ts, eq_iff i k, eq_iff i j, eq_iff k j)

count_of-start_targets :
    (j : String) (names : List String) (ts : Targets)
    → count_of j (start_targets names ts) ≡ (if contains names j then some 0 else count_of j ts)
unfolding start_targets
count_of-start_targets j [] ts = refl
count_of-start_targets j (k ∷ names) ts =
    ground (arith, count_of-start_targets j names (set_count k 0 ts), count_of-set_count j k 0 ts)

pick_lem :
    (names : List String) (f : String → ℕ) (l : List Test) (ts : Targets)
    → Counts names f ts
    → ((pick l ts).0 ≡ named_tests names l) × Counts names (λ k. f k + occurs k l) (pick l ts).1
unfolding pick
pick_lem names f [] ts h = (refl, λ k. ground (arith, h k))
pick_lem names f (test ∷ l) ts h = elim (Bool-cases (contains names test.name)) [
  | inl asked ↦
      let g : String → ℕ = λ k. if str_eq test.name k then f k + 1 else f k in
      let ts' = set_count test.name (f test.name + 1) ts in
      let h' : Counts names g ts' = λ k.
        ground
          (arith, h k, count_of-set_count k test.name (f test.name + 1) ts, eq_iff test.name k) in
      let (e, q) = pick_lem names g l ts' h' in
      let found : count_of test.name ts ≡ some (f test.name) = ground (arith, h test.name) in
      let step : pick (test ∷ l) ts ≡ (test ∷ (pick l ts').0, (pick l ts').1) = ground arith in
      (rw (step, asked) (rw e refl), λ k. rw step (ground (arith, q k)))
  | inr other ↦
      let missing : count_of test.name ts ≡ none = ground (arith, h test.name) in
      let (e, q) = pick_lem names f l ts h in
      let step : pick (test ∷ l) ts ≡ pick l ts = ground arith in
      (rw (step, other) e, λ k. rw step (ground (arith, q k, eq_iff test.name k)))
]

select_sources_lem :
    (names : List String) (f : String → ℕ) (list : List Source) (ts : Targets)
    → Counts names f ts
    → ((select_sources list ts).0 ≡ named_sources names list)
      × Counts names (λ k. f k + occurs_in k list) (select_sources list ts).1
unfolding select_sources
select_sources_lem names f [] ts h = (refl, λ k. ground (arith, h k))
select_sources_lem names f (src ∷ list) ts h =
    let (e, q) = pick_lem names f src.tests ts h in
    let (e', q') =
      select_sources_lem names (λ k. f k + occurs k src.tests) list (pick src.tests ts).1 q in
    (rw (e, e') refl, λ k. ground (arith, q' k))

-- select_testcases keeps, of each file, the tests whose names are asked for, in their order, and of
-- the files those that have such tests; and it counts, for each name that is asked for, how many
-- tests of all files have it.
pub select_testcases_lem :
    (list : List Source) (names : List String)
    → ((select_testcases list names).0 ≡ named_sources names list)
      × ((k : String)
          → count_of k (select_testcases list names).1
            ≡ (if contains names k then some (occurs_in k list) else none))
unfolding select_testcases count_of
select_testcases_lem list names =
    let (e, q) =
      select_sources_lem names (λ k. 0) list (start_targets names [])
        (λ k. ground (arith, count_of-start_targets k names [])) in
    (e, λ k. ground (arith, q k))
