-- ===== src/Command/Selected/Tests.antt =====
-- get_files on a directory and one of its files, and its theorem there.
use lua_testcase.Walk.Whole.{whole_of, whole_in}
use lua_testcase.Walk.{System}
use lua_testcase.Registry.Visited.{one_if}
use lua_testcase.Walk.Tests.{unsorted, tree, sys, lib}
use lua_testcase.Command.Selected.Trees.{lists, is_in_trees, get_files-whole_at, Ready}
use lua_testcase.Walk.Trees.{Node, dir, depth, is_broken, ShowsAll}
use lua_testcase.Common.{
  true, false, List, [], ◌∷◌, Option, none, some, if◌then◌else◌, ◌≡◌, refl, arith, Bool-cases, inl,
  inr,
}
use lua_testcase.Lua.Format.{bytes_of}
use lua_testcase.Paths.{Text, same, trim_suffix, trim_cwd, resolved, trim_prefix, has_slash}
use lua_testcase.Command.{failure_status}
use lua_testcase.Command.Selected.{
  Listing, listed, missing, got, exited, get_files, get_pathnames, pathnames_loop, names_loop,
  files_loop,
}
use lua_testcase.Command.Selected.Names.{is_got, occurs, has_listed}
use lua_testcase.Command.Selected.Paths.{paths_of, repeats}
use lua_testcase.Command.Selected.Files.{is_good, suffix_of, get_files_lem}

abbrev find_path : Text → Option Text
find_path p =
    if same p (bytes_of "test")
    then some (bytes_of "/work/test")
    else if same p (bytes_of "./test")
    then some (bytes_of "/work/test")
    else if same p (bytes_of "test/a_test.lua")
    then some (bytes_of "/work/test/a_test.lua")
    else if same p (bytes_of "/work/test/a_test.lua")
    then some (bytes_of "/work/test/a_test.lua")
    else if same p (bytes_of "test/b_test.lua")
    then some (bytes_of "/work/test/b_test.lua")
    else none

abbrev list_files : Text → Option Text → Listing
list_files p suffix =
    if same p (bytes_of "/work/test")
    then listed ((bytes_of "test/a_test.lua") ∷ (bytes_of "test/b_test.lua") ∷ [])
    else if same p (bytes_of "/work/test/a_test.lua")
    then listed ((bytes_of "test/a_test.lua") ∷ [])
    else missing

abbrev arguments : List Text
arguments = (bytes_of "test/a_test.lua") ∷ (bytes_of "test") ∷ []

get_files_lem_example :
    (is_good find_path list_files
          (suffix_of find_path list_files false)
          (paths_of find_path list_files arguments)
        ≡ true
      → is_got (get_files find_path list_files false arguments) ≡ true)
    × ((ps files : List Text)
        → paths_of find_path list_files arguments ≡ some ps
        → get_files find_path list_files false arguments ≡ got files
        → (q : Text)
        → occurs find_path list_files q files ≡ (
            if has_listed find_path list_files (suffix_of find_path list_files false) q ps
            then 1
            else 0))
    × ((ps : List Text)
        → paths_of find_path list_files arguments ≡ some ps
        → repeats ps ≡ true
        → get_files find_path list_files false arguments ≡ exited failure_status)
    × (paths_of find_path list_files arguments ≡ none
        → get_files find_path list_files false arguments ≡ exited failure_status)
get_files_lem_example = get_files_lem find_path list_files false arguments

-- The file of both arguments is there once.
once :
    get_files find_path list_files false arguments
    ≡ got ((bytes_of "test/a_test.lua") ∷ (bytes_of "test/b_test.lua") ∷ [])
unfolding get_files get_pathnames pathnames_loop names_loop files_loop
once = refl

same_path :
    get_files find_path list_files false ((bytes_of "test") ∷ (bytes_of "./test") ∷ [])
    ≡ exited failure_status
unfolding get_files get_pathnames pathnames_loop names_loop files_loop
same_path = refl

-- The working directory, realpath from it, and the tree below it.
abbrev work : Text
work = bytes_of "/work"

abbrev path_of : Text → Option Text
path_of p = some (resolved work p)

path_of_relative : (f : Text) → path_of f ≡ path_of (resolved work f)
path_of_relative f = elim (Bool-cases (has_slash f)) [
  | inl h ↦ rw h (rw h refl)
  | inr h ↦ rw h refl
]

abbrev work_sys : System
work_sys = record {
  enoent = sys.enoent;
  stat = λ p. sys.stat (trim_cwd work p);
  readdir = λ p. sys.readdir (trim_cwd work p);
}

abbrev tree_at : Text → Node
tree_at p = dir tree

tree-Ready : Ready path_of unsorted work work_sys 2 none (bytes_of "/work/t") (dir tree)
unfolding trim_suffix trim_cwd trim_prefix depth is_broken whole_of whole_in
tree-Ready =
    let inner : ShowsAll work_sys (bytes_of "/work/t/lib") lib = ((λ v. refl), ((λ v. refl), tt)) in
    let rest : ShowsAll work_sys (bytes_of "/work/t") tree =
      ((λ v. absurd (cc v)), ((λ v. (refl, refl, inner)), ((λ v. refl), ((λ v. refl), tt)))) in
    (
      refl,
      (refl, refl, rest),
      omega arith,
      refl,
      (
        inl (bytes_of "t/a_test.lua", refl, refl),
        (inl (bytes_of "t/lib/b_test.lua", refl, refl), tt),
      ),
      refl,
    )

get_files-whole_at_example :
    (files : List Text) × (get_files path_of
        (lists path_of unsorted work work_sys 2)
        false
        (bytes_of "t" ∷ [])
      ≡ got files)
    × ((q : Text)
        → occurs path_of (lists path_of unsorted work work_sys 2) q files
          ≡ one_if (
              is_in_trees path_of unsorted work work_sys 2 tree_at none q
                (bytes_of "/work/t" ∷ [])))
get_files-whole_at_example =
    get_files-whole_at path_of unsorted work work_sys 2 (λ f l. refl) path_of_relative false
      (bytes_of "t" ∷ []) (bytes_of "/work/t" ∷ []) tree_at refl refl (tree-Ready, tt)
