-- ===== src/Registry/Tests.antt =====
-- Runs of the registry, and tables and sorting for which what pairs and table.sort are relied on for holds.
use lua_testcase.Registry.Results.{after, add_result}
use lua_testcase.Registry.Visited.{one_if}
use lua_testcase.Registry.Added.{accepted, is_some, any_in, first}
use lua_testcase.Common.{
  ℕ, Bool, false, String, List, [], ◌∷◌, if◌then◌else◌, str_eq, ◌≡◌, refl, All, ◌+◌, Bool-cases,
  arith, ◌∙◌, ap, inl, eq_iff, inr, ltb, length, none, some, true,
}
use lua_testcase.Lua.Format.{bytes_of}
use lua_testcase.Registry.{
  Table, Pairs, Sort, lookup, getlist, Stat, Addition, sources_of, add, string, added, visit,
  function, assign, other, enter, already_defined, Entry, add_checked, cmp_name, is_part, clear,
}
use lua_testcase.Registry.Visited.{
  PairsLaw, SortLaw, InOrder, IsOrder, IsEntry, count, has_key, total,
}
use lua_testcase.Registry.Listed.{All-map, IsItem, is_file, getlist_lem}

abbrev without : {A : Type 0} → String → Table A → Table A
without k [] = []
without k ((j, a) ∷ t) = let rest = without k t in if str_eq j k then rest else (j, a) ∷ rest

-- The first value of each key.
abbrev entries : {A : Type 0} → Table A → Table A
entries [] = []
entries ((k, a) ∷ t) = (k, a) ∷ without k (entries t)

abbrev pub pairs : Pairs
pairs A t = entries t

count-without :
    {A : Type 0} (j k : String) (t : Table A)
    → count (has_key j) (without k t) ≡ (if str_eq k j then 0 else count (has_key j) t)
count-without j k [] = ground arith
count-without j k ((i, a) ∷ t) =
    ground (arith, count-without j k t, eq_iff i k, eq_iff i j, eq_iff k j)

All-without :
    {A : Type 0} (k : String) (a : A) (t l : Table A)
    → All (IsEntry t) l
    → All (IsEntry ((k, a) ∷ t)) (without k l)
unfolding lookup
All-without k a t [] h = tt
All-without k a t ((j, b) ∷ l) h = elim (Bool-cases (str_eq j k)) [
  | inl same ↦ rw same (All-without k a t l h.1)
  | inr differ ↦ rw differ (ground (arith, h.0, eq_iff k j, eq_iff j k), All-without k a t l h.1)
]

pub pairs_law : PairsLaw pairs
unfolding lookup
pairs_law A [] = (tt, λ k. refl)
pairs_law A ((j, a) ∷ t) =
    let (h, once) = pairs_law A t in
    (
      (ground (arith, eq_iff j j), All-without j a t (entries t) h),
      λ k. ground (arith, count-without k j (entries t), once k),
    )

abbrev insert : {A : Type 0} → (A → A → Bool) → A → List A → List A
insert cmp a [] = a ∷ []
insert cmp a (b ∷ l) = let rest = insert cmp a l in if cmp b a then b ∷ rest else a ∷ b ∷ l

abbrev sorted : {A : Type 0} → (A → A → Bool) → List A → List A
sorted cmp [] = []
sorted cmp (a ∷ l) = insert cmp a (sorted cmp l)

abbrev pub sort : Sort
sort A cmp l = sorted cmp l

All-insert :
    {A : Type 0} (P : A → Type 0) (cmp : A → A → Bool) (a : A) (l : List A)
    → P a
    → All P l
    → All P (insert cmp a l)
All-insert P cmp a [] h g = (h, tt)
All-insert P cmp a (b ∷ l) h g = elim (Bool-cases (cmp b a)) [
  | inl less ↦ rw less (g.0, All-insert P cmp a l h g.1)
  | inr more ↦ rw more (h, g)
]

total-insert :
    {A : Type 0} (f : A → ℕ) (cmp : A → A → Bool) (a : A) (l : List A)
    → total f (insert cmp a l) ≡ f a + total f l
total-insert f cmp a [] = refl
total-insert f cmp a (b ∷ l) = elim (Bool-cases (cmp b a)) [
  | inl less ↦ rw less (omega (arith, total-insert f cmp a l))
  | inr more ↦ rw more refl
]

insert-InOrder :
    {A : Type 0} (cmp : A → A → Bool) (a : A) (l : List A)
    → IsOrder cmp
    → InOrder cmp l
    → InOrder cmp (insert cmp a l)
insert-InOrder cmp a [] o h = (tt, tt)
insert-InOrder cmp a (b ∷ l) o h = elim (Bool-cases (cmp b a)) [
  | inl less ↦
      rw less
        (All-insert (λ c. cmp c b ≡ false) cmp a l (o.0 b a less) h.0, insert-InOrder cmp a l o h.1)
  | inr more ↦ rw more ((more, All-map _ _ l (λ c g. o.1 c b a g more) h.0), h)
]

pub sort_law : SortLaw sort
sort_law A cmp [] = (λ P h. tt, λ f. refl, λ o. tt)
sort_law A cmp (a ∷ l) =
    let (keep, sums, order) = sort_law A cmp l in
    (
      λ P h. All-insert P cmp a (sorted cmp l) h.0 (keep P h.1),
      λ f. total-insert f cmp a (sorted cmp l) ∙ ap (λ n. f a + n) (sums f),
      λ o. insert-InOrder cmp a (sorted cmp l) o (order o),
    )

abbrev stat : Stat
stat = record {
  dirname = ".";
  basename = "a_test.lua";
  pathname = "a_test.lua";
  realpath = "/work/a_test.lua";
}

abbrev addition : String → ℕ → ℕ → Addition
addition name f n = record { name = string name; func = function f; lineno = n; stat = inl stat }

-- Two tests, the later one added first, a setup, a name that is there already, and no function.
abbrev pub additions : List Addition
additions =
    addition "sub" 2 20
    ∷ addition "add" 1 10
    ∷ addition "before_all" 3 30
    ∷ addition "sub" 4 40
    ∷ record { name = string "mul"; func = other "nil"; lineno = 0; stat = inl stat }
    ∷ []

-- A comparison of names by their length.
abbrev pub shorter : String → String → Bool
shorter s r = ltb (length (bytes_of s)) (length (bytes_of r))

pub shorter-IsOrder : IsOrder shorter
shorter-IsOrder = (λ a b h. ground (arith, h), λ a b c h g. ground (arith, h, g))

getlist_lem_example :
    All (IsItem additions) (getlist pairs sort shorter (added additions [])).0
    × ((p : String)
        → count (is_file p) (getlist pairs sort shorter (added additions [])).0
          ≡ one_if (any_in p additions))
    × InOrder (cmp_name pairs sort shorter) (getlist pairs sort shorter (added additions [])).0
    × ((getlist pairs sort shorter (added additions [])).1
        ≡ total (λ i. length i.tests) (getlist pairs sort shorter (added additions [])).0)
getlist_lem_example = getlist_lem pairs sort shorter pairs_law sort_law additions shorter-IsOrder

registry_ops : Unit {0}
unfolding getlist visit lookup assign enter add add_checked is_part
registry_ops = tt

sources :
    sources_of (getlist pairs sort shorter (added additions [])).0
    ≡ record {
      name = "a_test.lua";
      dirname = ".";
      before_all = some 3;
      after_all = none;
      before_each = none;
      after_each = none;
      tests = record { name = "add"; func = 1 } ∷ record { name = "sub"; func = 2 } ∷ [];
    }
      ∷ []
unfolding registry_ops
sources = refl

add_result_example :
    (accepted (addition "add" 5 50) ≡ none
      → is_some (add (addition "add" 5 50) (added additions (clear []))).0 ≡ true)
    × ((s : Stat) (e : Entry)
        → accepted (addition "add" 5 50) ≡ some (s, e)
        → (add (addition "add" 5 50) (added additions (clear []))).0
          ≡ after e (first s.pathname e.name additions))
add_result_example = add_result [] (addition "add" 5 50) additions

already : (add (addition "add" 5 50) (added additions [])).0 ≡ some (already_defined "add" 50 10)
unfolding registry_ops
already = refl
