-- ===== src/Command/Selected/Trees.antt =====
-- get_files on trees of files, with getfiles of lib/filesystem.lua.
use lua_testcase.Command.Selected.Files.{suffix_of, get_files_lem}
use lua_testcase.Command.Selected.Paths.{paths_of, repeats}
use lua_testcase.Walk.Found.{getfiles_lem, IsAt}
use lua_testcase.Common.{
  ℕ, Bool, true, false, List, [], ◌∷◌, Option, none, some, arith, ◌≡◌, ltb, not, ◌∙◌, All,
  if◌then◌else◌, ap, sym, refl, ◌≤◌, inl, inr, map, ◌++◌, ◌⊎◌,
}
use lua_testcase.Paths.{
  Text, trim_cwd, trim_suffix, slash, resolved, has_slash, resolved-trim_cwd, begins, same,
}
use lua_testcase.Registry.Visited.{total, one_if}
use lua_testcase.Walk
use lua_testcase.Walk.{System, or_default}
use lua_testcase.Walk.Whole.{whole_of, files_of-whole_of}
use lua_testcase.Walk.Trees.{
  Node, file, dir, closed, special, gone, bad, has_broken, files_of, Shows, depth,
}
use lua_testcase.Command.Selected.{Listing, listed, missing, failed, get_files, got}
use lua_testcase.Command.Selected.Names.{
  is_path, has_path, all_found, is_fine, all_listed, in_listing, has_listed, occurs, is_got,
  result_cases,
}

abbrev pub from_walk : Walk.Listing → Listing
from_walk (Walk.listed l) = listed l
from_walk Walk.missing = missing
from_walk (Walk.error e) = failed
from_walk Walk.no_fuel = failed

-- What is at a path has no error, and is there.
abbrev pub IsSound : Node → Type 0
IsSound (dir es) = has_broken es ≡ false
IsSound file = Unit
IsSound special = Unit
IsSound (closed e) = ⊥
IsSound gone = ⊥
IsSound (bad e) = ⊥

-- The test files at a path.
abbrev pub names_at : Text → Text → Text → Node → List Text
names_at cwd suffix p file = trim_cwd cwd p ∷ []
names_at cwd suffix p (dir es) = files_of cwd suffix (trim_suffix p slash) (dir es)
names_at cwd suffix p special = []
names_at cwd suffix p (closed e) = []
names_at cwd suffix p gone = []
names_at cwd suffix p (bad e) = []

-- The names of the test files at a path, from the path on.
abbrev pub whole_at : Text → Text → Node → List Text
whole_at suffix p file = p ∷ []
whole_at suffix p (dir es) = whole_of suffix (trim_suffix p slash) (dir es)
whole_at suffix p special = []
whole_at suffix p (closed e) = []
whole_at suffix p gone = []
whole_at suffix p (bad e) = []

names_at-whole_at :
    (cwd suffix p : Text) (t : Node)
    → names_at cwd suffix p t ≡ map (trim_cwd cwd) (whole_at suffix p t)
names_at-whole_at cwd suffix p file = refl
names_at-whole_at cwd suffix p (dir es) =
    files_of-whole_of cwd suffix (trim_suffix p slash) (dir es)
names_at-whole_at cwd suffix p special = refl
names_at-whole_at cwd suffix p (closed e) = refl
names_at-whole_at cwd suffix p gone = refl
names_at-whole_at cwd suffix p (bad e) = refl

-- An absolute name that begins with the bytes of CWD only where it is below CWD, by one slash.
abbrev pub IsClear : Text → Text → Type 0
IsClear cwd f =
    ((rest : Text) × (has_slash rest ≡ false) × (f ≡ cwd ++ (b'/' ∷ rest)))
    ⊎ ((has_slash f ≡ true) × (begins cwd f ≡ false))

resolved_clear : (cwd f : Text) → IsClear cwd f → resolved cwd (trim_cwd cwd f) ≡ f
resolved_clear cwd f (inl (rest, h, e)) =
    ap (λ x. resolved cwd (trim_cwd cwd x)) e ∙ (resolved-trim_cwd cwd).0 rest h ∙ sym e
resolved_clear cwd f (inr (h, g)) = (resolved-trim_cwd cwd).1 f h g

module _ (realpath : Text → Option Text) (sort : List Text → List Text) (cwd : Text) (sys : System)
    (fuel : ℕ) where
  abbrev pub lists : Text → Option Text → Listing
  lists p suffix = from_walk (Walk.getfiles sort cwd sys fuel p suffix)

  abbrev found : Text → Bool
  found f = elim (realpath f) [ none ↦ false | some path ↦ true ]

  has_path-total :
      (q : Text) (l : List Text)
      → has_path realpath lists q l ≡ ltb 0 (total (λ f. one_if (is_path realpath lists q f)) l)
  has_path-total q [] = ground arith
  has_path-total q (f ∷ l) = ground (arith, has_path-total q l)

  all_found-total :
      (l : List Text)
      → all_found realpath lists l ≡ not (ltb 0 (total (λ f. one_if (not (found f))) l))
  all_found-total [] = ground arith
  all_found-total (f ∷ l) = ground (arith, all_found-total l)

  -- trim_cwd does not change what a clear name is of.
  module _ (relative : (f : Text) → realpath f ≡ realpath (resolved cwd f)) where
    realpath_trimmed : (f : Text) → IsClear cwd f → realpath (trim_cwd cwd f) ≡ realpath f
    realpath_trimmed f h = relative (trim_cwd cwd f) ∙ ap realpath (resolved_clear cwd f h)

    has_path-map :
        (q : Text) (l : List Text)
        → All (IsClear cwd) l
        → has_path realpath lists q (map (trim_cwd cwd) l) ≡ has_path realpath lists q l
    has_path-map q [] h = refl
    has_path-map q (f ∷ l) h =
        let rest = has_path realpath lists q (map (trim_cwd cwd) l) in
        ap (λ r. if elim r [ none ↦ false | some path ↦ same path q ] then true else rest)
          (realpath_trimmed f h.0)
        ∙ ap (λ x. if is_path realpath lists q f then true else x) (has_path-map q l h.1)

    all_found-map :
        (l : List Text)
        → All (IsClear cwd) l
        → all_found realpath lists (map (trim_cwd cwd) l) ≡ all_found realpath lists l
    all_found-map [] h = refl
    all_found-map (f ∷ l) h =
        let rest = all_found realpath lists (map (trim_cwd cwd) l) in
        ap (λ r. elim r [ none ↦ false | some path ↦ rest ]) (realpath_trimmed f h.0)
        ∙ ap (λ x. elim (realpath f) [ none ↦ false | some path ↦ x ]) (all_found-map l h.1)

  -- The tree at a path, and that all its test files are found.
  abbrev pub Ready : Option Text → Text → Node → Type 0
  Ready suffix p t =
      IsAt sys p t
      × Shows sys (trim_suffix p slash) t
      × (depth t ≤ fuel)
      × IsSound t
      × All (IsClear cwd) (whole_at (or_default suffix) p t)
      × (all_found realpath lists (whole_at (or_default suffix) p t) ≡ true)

  -- Whether a file is a test file of any of the trees.
  abbrev pub is_in_trees : (Text → Node) → Option Text → Text → List Text → Bool
  is_in_trees trees suffix q [] = false
  is_in_trees trees suffix q (p ∷ ps) =
      if has_path realpath lists q (whole_at (or_default suffix) p (trees p))
      then true
      else is_in_trees trees suffix q ps

  module _ (law : (f : Text → ℕ) (l : List Text) → total f (sort l) ≡ total f l)
      (relative : (f : Text) → realpath f ≡ realpath (resolved cwd f)) where
    has_path-sort :
        (q : Text) (l : List Text)
        → has_path realpath lists q (sort l) ≡ has_path realpath lists q l
    has_path-sort q l =
        has_path-total q (sort l)
        ∙ ap (ltb 0) (law (λ f. one_if (is_path realpath lists q f)) l)
        ∙ sym (has_path-total q l)

    all_found-sort :
        (l : List Text) → all_found realpath lists (sort l) ≡ all_found realpath lists l
    all_found-sort l =
        all_found-total (sort l)
        ∙ ap (λ n. not (ltb 0 n)) (law (λ f. one_if (not (found f))) l)
        ∙ sym (all_found-total l)

    abbrev Lists : Option Text → Text → Node → Type 0
    Lists suffix p t =
        (is_fine realpath lists (lists p suffix) ≡ true)
        × ((q : Text)
            → in_listing realpath lists q (lists p suffix)
              ≡ has_path realpath lists q (names_at cwd (or_default suffix) p t))

    lists_sorted :
        (suffix : Option Text) (p : Text) (t : Node)
        → Walk.getfiles sort cwd sys fuel p suffix
          ≡ Walk.listed (sort (names_at cwd (or_default suffix) p t))
        → all_found realpath lists (names_at cwd (or_default suffix) p t) ≡ true
        → Lists suffix p t
    lists_sorted suffix p t e g =
        let names = names_at cwd (or_default suffix) p t in
        (
          ap (λ x. is_fine realpath lists (from_walk x)) e ∙ all_found-sort names ∙ g,
          λ q. ap (λ x. in_listing realpath lists q (from_walk x)) e ∙ has_path-sort q names,
        )

    lists_named :
        (suffix : Option Text) (p : Text) (t : Node)
        → Ready suffix p t
        → all_found realpath lists (names_at cwd (or_default suffix) p t) ≡ true
        → Lists suffix p t
    lists_named suffix p file (at, shows, deep, sound, clear, all) g =
        let e = getfiles_lem sort cwd sys fuel p suffix file at shows deep in
        (
          ap (λ x. is_fine realpath lists (from_walk x)) e ∙ g,
          λ q. ap (λ x. in_listing realpath lists q (from_walk x)) e,
        )
    lists_named suffix p special (at, shows, deep, sound, clear, all) g =
        lists_sorted suffix p special
          (getfiles_lem sort cwd sys fuel p suffix special at shows deep) g
    lists_named suffix p (dir es) (at, shows, deep, sound, clear, all) g =
        lists_sorted suffix p (dir es)
          ((getfiles_lem sort cwd sys fuel p suffix (dir es) at shows deep).0 sound) g
    lists_named suffix p (closed e) (at, shows, deep, sound, clear, all) g = absurd sound
    lists_named suffix p gone (at, shows, deep, sound, clear, all) g = absurd sound
    lists_named suffix p (bad e) (at, shows, deep, sound, clear, all) g = absurd sound

    lists_lem :
        (suffix : Option Text) (p : Text) (t : Node)
        → Ready suffix p t
        → (is_fine realpath lists (lists p suffix) ≡ true)
          × ((q : Text)
              → in_listing realpath lists q (lists p suffix)
                ≡ has_path realpath lists q (whole_at (or_default suffix) p t))
    lists_lem suffix p t ready =
        let (at, shows, deep, sound, clear, all) = ready in
        let names = whole_at (or_default suffix) p t in
        let cut = names_at-whole_at cwd (or_default suffix) p t in
        let g = ap (all_found realpath lists) cut ∙ all_found-map relative names clear ∙ all in
        let (fine, named) = lists_named suffix p t ready g in
        (
          fine,
          λ q. named q ∙ ap (has_path realpath lists q) cut ∙ has_path-map relative q names clear,
        )

    trees_lem :
        (trees : Text → Node) (suffix : Option Text) (ps : List Text)
        → All (λ p. Ready suffix p (trees p)) ps
        → (all_listed realpath lists suffix ps ≡ true)
          × ((q : Text) → has_listed realpath lists suffix q ps ≡ is_in_trees trees suffix q ps)
    trees_lem trees suffix [] h = (refl, λ q. refl)
    trees_lem trees suffix (p ∷ ps) h =
        let (fine, named) = lists_lem suffix p (trees p) h.0 in
        let (rest, more) = trees_lem trees suffix ps h.1 in
        (rw fine rest, λ q. rw (named q, more q) refl)

    -- Where table.sort rearranges, realpath takes relative names from CWD, all arguments have paths, no two
    -- the same, and the system shows at each a file or a tree without what cannot be read, of no more depth
    -- than the fuel, whose test files are all found and have absolute names that begin with the bytes of CWD
    -- only where they are below it, by one slash: get_files gives a list, and it has exactly one name of
    -- each file that is a test file of any of the trees, and of no other file.
    pub get_files-whole_at :
        (checkall : Bool) (opts ps : List Text) (trees : Text → Node)
        → paths_of realpath lists opts ≡ some ps
        → repeats ps ≡ false
        → All (λ p. Ready (suffix_of realpath lists checkall) p (trees p)) ps
        → (files : List Text) × (get_files realpath lists checkall opts ≡ got files)
          × ((q : Text)
              → occurs realpath lists q files
                ≡ one_if (is_in_trees trees (suffix_of realpath lists checkall) q ps))
    get_files-whole_at checkall opts ps trees paths once ready =
        let suffix = suffix_of realpath lists checkall in
        let (listed_all, same) = trees_lem trees suffix ps ready in
        let (succeeds, counts, twice, lost) = get_files_lem realpath lists checkall opts in
        let good : is_got (get_files realpath lists checkall opts) ≡ true =
          succeeds (rw (paths, once, listed_all) refl) in
        elim (result_cases (get_files realpath lists checkall opts)) [
          | inl (files, e) ↦ (files, e, λ q. counts ps files paths e q ∙ ap one_if (same q))
          | inr none_got ↦ absurd (cc (sym good ∙ none_got))
        ]
