-- ===== src/Registry/Listed.antt =====
-- The list that getlist makes of the registry.
use lua_testcase.Registry.Visited.{
  count, PairsLaw, func_of_entry, IsOrder, plain, total, has_name, SortLaw, IsEntry, one_if,
  visit-name, visit-tests, InOrder, has_key, parts_lem, count-plain, IsNamed,
}
use lua_testcase.Common.{
  Bool, String, List, [], ◌∷◌, none, some, if◌then◌else◌, str_eq, ◌≡◌, refl, arith, inl, inr,
  Bool-cases, suc, All, sym, ap, ◌∙◌, ◌+◌, length,
}
use lua_testcase.Registry.{
  Table, lookup, Entry, Item, is_part, visit, Pairs, Sort, Addition, cmp_lineno, File, item_of,
  start_item, added, getlist, items, cmp_name,
}
use lua_testcase.Registry.Added.{is_some, first, first-named, any_in, entry_at, added_from_empty}

pub All-map :
    {A : Type 0} (P Q : A → Type 0) (l : List A) → ((a : A) → P a → Q a) → All P l → All Q l
All-map P Q [] f h = tt
All-map P Q (a ∷ l) f h = (f a h.0, All-map P Q l f h.1)

All-plain : (P : Entry → Type 0) (l : Table Entry) → All (λ a. P a.1) l → All P (plain l)
All-plain P [] h = tt
All-plain P ((k, e) ∷ l) h = elim (Bool-cases (is_part k)) [
  | inl part ↦ rw part (All-plain P l h.1)
  | inr other ↦ rw other (h.0, All-plain P l h.1)
]

count-total : {A : Type 0} (f : A → Bool) (l : List A) → count f l ≡ total (λ a. one_if (f a)) l
count-total f [] = refl
count-total f (a ∷ l) = ground (arith, count-total f l)

abbrev pub is_file : String → Item → Bool
is_file p i = str_eq i.name p

abbrev pub IsItem : List Addition → Item → Type 0
IsItem adds i =
    ((k : String)
      → lookup k i.parts ≡ (if is_part k then func_of_entry (first i.name k adds) else none))
    × All (λ e. first i.name e.name adds ≡ some e) i.tests
    × ((k : String)
        → count (has_name k) i.tests
          ≡ (if is_part k then 0 else one_if (is_some (first i.name k adds))))
    × InOrder cmp_lineno i.tests

lineno-IsOrder : IsOrder cmp_lineno
lineno-IsOrder = (λ a b h. ground arith, λ a b c h g. ground arith)

module _ (pairs : Pairs) (sort : Sort) (lt_name : String → String → Bool)
    (pairs_law : PairsLaw pairs) (sort_law : SortLaw sort) where
  item_of-IsItem :
      (adds : List Addition) (src : String) (f : File)
      → ((k : String) → lookup k f.tests ≡ first src k adds)
      → IsItem adds (item_of pairs sort lt_name src f)
  item_of-IsItem adds src f same =
      let ps = pairs Entry f.tests in
      let i = visit ps (start_item src f) in
      let (entries, once) = pairs_law Entry f.tests in
      let (keep, sums, order) = sort_law Entry cmp_lineno i.tests in
      let named : i.name ≡ src = visit-name ps (start_item src f) in
      let listed : i.tests ≡ plain ps = visit-tests ps (start_item src f) in
      let own : All (λ (a : String × Entry). (first src a.0 adds ≡ some a.1) × (a.1.name ≡ a.0))
          ps =
        All-map (IsEntry f.tests) _ ps
          (λ a h. (sym (same a.0) ∙ h, first-named src a.0 adds a.1 (sym (same a.0) ∙ h)))
          entries in
      let at : (k : String) → first i.name k adds ≡ lookup k f.tests =
        λ k. ap (λ n. first n k adds) named ∙ sym (same k) in
      (
        λ k. rw (at k) (parts_lem k f.tests ps (start_item src f) entries (once k)),
        keep _ (
            rw listed (
              All-plain _ ps (
                All-map _ _ ps
                  (λ a h.
                    ap (λ n. first n a.1.name adds) named ∙ ap (λ n. first src n adds) h.1 ∙ h.0)
                  own))),
        λ k.
            count-total (has_name k) (sort Entry cmp_lineno i.tests)
            ∙ sums _
            ∙ sym (count-total (has_name k) i.tests)
            ∙ ap (count (has_name k)) listed
            ∙ count-plain k ps (All-map _ IsNamed ps (λ a h. h.1) own)
            ∙ rw (once k, at k) refl,
        order lineno-IsOrder,
      )

  items_lem :
      (adds : List Addition) (l : Table File)
      → All (IsEntry (added adds [])) l
      → All (IsItem adds) (items pairs sort lt_name l).0
        × ((p : String) → count (is_file p) (items pairs sort lt_name l).0 ≡ count (has_key p) l)
        × ((items pairs sort lt_name l).1
            ≡ total (λ i. length i.tests) (items pairs sort lt_name l).0)
  items_lem adds [] h = (tt, λ p. refl, refl)
  items_lem adds ((src, f) ∷ l) h =
      let (good, each, sum) = items_lem adds l h.1 in
      let named = visit-name (pairs Entry f.tests) (start_item src f) in
      (
        (
          item_of-IsItem adds src f
              (λ k. ap (entry_at k) (sym h.0) ∙ (added_from_empty src k adds).0),
          good,
        ),
        λ p.
            ap
              (λ n.
                if str_eq n p
                then suc (count (is_file p) (items pairs sort lt_name l).0)
                else count (is_file p) (items pairs sort lt_name l).0)
              named
            ∙ rw (each p) refl,
        ap (◌+◌ (length (item_of pairs sort lt_name src f).tests)) sum,
      )

  -- Where pairs gives the fields of a table, each once, table.sort puts a list in order, and names are
  -- compared by an order: after any calls of add, getlist has each file that something was added to, once,
  -- and the files in the order of their names; a file has each test once, and with the function that was
  -- added first under its name, in the order of their lines, and under the name of a setup or teardown the
  -- function that was added first under it; and the number that getlist returns is that of all tests.
  pub getlist_lem :
      (adds : List Addition)
      → IsOrder lt_name
      → All (IsItem adds) (getlist pairs sort lt_name (added adds [])).0
        × ((p : String)
            → count (is_file p) (getlist pairs sort lt_name (added adds [])).0
              ≡ one_if (any_in p adds))
        × InOrder (cmp_name pairs sort lt_name) (getlist pairs sort lt_name (added adds [])).0
        × ((getlist pairs sort lt_name (added adds [])).1
            ≡ total (λ i. length i.tests) (getlist pairs sort lt_name (added adds [])).0)
  unfolding getlist lookup
  getlist_lem adds order =
      let r = added adds [] in
      let (entries, once) = pairs_law File r in
      let (good, each, sum) = items_lem adds (pairs File r) entries in
      let l = (items pairs sort lt_name (pairs File r)).0 in
      let (keep, sums, ordered) = sort_law Item (cmp_name pairs sort lt_name) l in
      (
        keep (IsItem adds) good,
        λ p.
            count-total (is_file p) (sort Item (cmp_name pairs sort lt_name) l)
            ∙ sums _
            ∙ sym (count-total (is_file p) l)
            ∙ each p
            ∙ once p
            ∙ ap one_if (added_from_empty p p adds).1,
        ordered (λ a b. order.0 a.name b.name, λ a b c. order.1 a.name b.name c.name),
        sum ∙ sym (sums _),
      )
