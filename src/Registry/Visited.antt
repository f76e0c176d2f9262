-- ===== src/Registry/Visited.antt =====
-- What pairs and table.sort of Lua are relied on for, and the loop of getlist over the functions of a file.
use mathlib.Core.List.{append-nil, append_assoc}
use lua_testcase.Common.{
  ℕ, Bool, true, false, String, List, [], ◌∷◌, ◌++◌, Option, none, some, if◌then◌else◌, str_eq, ◌≡◌,
  refl, arith, eq_iff, inl, inr, Bool-cases, suc, All, sym, ap, ◌∙◌, zero, ◌+◌,
}
use lua_testcase.Registry.{Table, lookup, Entry, Item, is_part, visit, Pairs, Sort, place}
use lua_testcase.Registry.Added.{is_some, lookup-assign}

abbrev pub count : {A : Type 0} → (A → Bool) → List A → ℕ
count f [] = 0
count f (a ∷ l) = if f a then suc (count f l) else count f l

abbrev pub total : {A : Type 0} → (A → ℕ) → List A → ℕ
total f [] = 0
total f (a ∷ l) = f a + total f l

abbrev pub one_if : Bool → ℕ
one_if b = if b then 1 else 0

abbrev pub has_key : {A : Type 0} → String → String × A → Bool
has_key k (j, a) = str_eq j k

abbrev pub IsEntry : {A : Type 0} → Table A → String × A → Type 0
IsEntry t (j, a) = lookup j t ≡ some a

-- pairs gives the keys of a table, each once, with their values.
abbrev pub PairsLaw : Pairs → Type 1
PairsLaw pairs =
    (A : Type 0) (t : Table A)
    → All (IsEntry t) (pairs A t)
      × ((k : String) → count (has_key k) (pairs A t) ≡ one_if (is_some (lookup k t)))

abbrev pub IsOrder : {A : Type 0} → (A → A → Bool) → Type 0
IsOrder {A} cmp =
    ((a b : A) → cmp a b ≡ true → cmp b a ≡ false)
    × ((a b c : A) → cmp a b ≡ false → cmp b c ≡ false → cmp a c ≡ false)

abbrev pub InOrder : {A : Type 0} → (A → A → Bool) → List A → Type 0
InOrder cmp [] = Unit
InOrder cmp (a ∷ l) = All (λ b. cmp b a ≡ false) l × InOrder cmp l

-- table.sort rearranges the list, and puts it in order where the comparison is an order.
abbrev pub SortLaw : Sort → Type 1
SortLaw sort =
    (A : Type 0) (cmp : A → A → Bool) (l : List A)
    → ((P : A → Type 0) → All P l → All P (sort A cmp l))
      × ((f : A → ℕ) → total f (sort A cmp l) ≡ total f l)
      × (IsOrder cmp → InOrder cmp (sort A cmp l))

abbrev pub func_of_entry : Option Entry → Option ℕ
func_of_entry none = none
func_of_entry (some e) = some e.func

-- Whether a number is zero.
abbrev pub is_zero : ℕ → Bool
is_zero zero = true
is_zero (suc n) = false

abbrev pub has_name : String → Entry → Bool
has_name k e = str_eq e.name k

-- The entries that are no setups or teardowns.
abbrev pub plain : Table Entry → List Entry
plain [] = []
plain ((k, e) ∷ l) = if is_part k then plain l else e ∷ plain l

-- The function of the last entry with the key.
abbrev pub last_func : String → Table Entry → Option ℕ → Option ℕ
last_func k [] acc = acc
last_func k ((j, e) ∷ l) acc = last_func k l (if str_eq j k then some e.func else acc)

pub visit-tests : (l : Table Entry) (i : Item) → (visit l i).tests ≡ i.tests ++ plain l
unfolding visit
visit-tests [] i = sym (append-nil i.tests)
visit-tests ((k, e) ∷ l) i = elim (Bool-cases (is_part k)) [
  | inl part ↦
      ap (λ b. (visit l (place k e i b)).tests) part
      ∙ visit-tests l (place k e i true)
      ∙ rw part refl
  | inr other ↦
      ap (λ b. (visit l (place k e i b)).tests) other
      ∙ visit-tests l (place k e i false)
      ∙ rw other (append_assoc i.tests (e ∷ []) (plain l))
]

visit-parts :
    (k : String) (l : Table Entry) (i : Item)
    → lookup k (visit l i).parts
      ≡ (if is_part k then last_func k l (lookup k i.parts) else lookup k i.parts)
unfolding visit
visit-parts k [] i = ground arith
visit-parts k ((j, e) ∷ l) i =
    let same : str_eq j k ≡ true → is_part j ≡ is_part k = λ h. ap is_part ((eq_iff j k).0 h) in
    let put = lookup-assign k j e.func i.parts in
    elim (Bool-cases (is_part j)) [
      | inl part ↦
          ap (λ b. lookup k (visit l (place j e i b)).parts) part
          ∙ visit-parts k l (place j e i true)
          ∙ ground (arith, put)
      | inr other ↦
          ap (λ b. lookup k (visit l (place j e i b)).parts) other
          ∙ visit-parts k l (place j e i false)
          ∙ ground arith
    ]

pub visit-name : (l : Table Entry) (i : Item) → (visit l i).name ≡ i.name
unfolding visit
visit-name [] i = refl
visit-name ((j, e) ∷ l) i = visit-name l (place j e i (is_part j)) ∙ elim (Bool-cases (is_part j)) [
  | inl part ↦ ap (λ b. (place j e i b).name) part
  | inr other ↦ ap (λ b. (place j e i b).name) other
]

pub last_func_lem :
    (k : String) (t l : Table Entry) (acc : Option ℕ)
    → All (IsEntry t) l
    → last_func k l acc
      ≡ (if is_zero (count (has_key k) l) then acc else func_of_entry (lookup k t))
last_func_lem k t [] acc h = refl
last_func_lem k t ((j, e) ∷ l) acc h = elim (Bool-cases (str_eq j k)) [
  | inl same ↦
      let here : lookup k t ≡ some e = ap (λ i. lookup i t) (sym ((eq_iff j k).0 same)) ∙ h.0 in
      rw same (last_func_lem k t l (some e.func) h.1 ∙ rw here (ground arith))
  | inr other ↦ rw other (last_func_lem k t l acc h.1)
]

none_or_some :
    (x : Option Entry)
    → (if is_zero (one_if (is_some x)) then none else func_of_entry x) ≡ func_of_entry x
none_or_some none = refl
none_or_some (some e) = refl

-- A setup or teardown is the function that the table has under its key.
pub parts_lem :
    (k : String) (t l : Table Entry) (i : Item)
    → All (IsEntry t) l
    → count (has_key k) l ≡ one_if (is_some (lookup k t))
    → lookup k (visit l (record i { parts = [] })).parts
      ≡ (if is_part k then func_of_entry (lookup k t) else none)
unfolding lookup
parts_lem k t l i h once =
    visit-parts k l (record i { parts = [] })
    ∙ ap (λ x. if is_part k then x else none)
        (last_func_lem k t l none h ∙ rw once (none_or_some (lookup k t)))

-- Where each entry has its key as its name.
abbrev pub IsNamed : String × Entry → Type 0
IsNamed (k, e) = e.name ≡ k

pub count-plain :
    (k : String) (l : Table Entry)
    → All IsNamed l
    → count (has_name k) (plain l) ≡ (if is_part k then 0 else count (has_key k) l)
count-plain k [] h = ground arith
count-plain k ((j, e) ∷ l) h =
    let rest = count-plain k l h.1 in
    let same : str_eq j k ≡ true → is_part j ≡ is_part k = λ q. ap is_part ((eq_iff j k).0 q) in
    let named : str_eq e.name k ≡ str_eq j k = ap (λ i. str_eq i k) h.0 in
    elim (Bool-cases (str_eq j k)) [
      | inl q ↦ ground (arith, rest, same q, named)
      | inr q ↦ ground (arith, rest, named)
    ]
