-- ===== src/Walk/Tests.antt =====
-- getfiles on a small tree, and its theorem there.
use lua_testcase.Common.{
  ℕ, ◌≡◌, List, [], ◌∷◌, none, inl, inr, refl, ◌≤◌, arith, if◌then◌else◌, ◌⊎◌,
}
use lua_testcase.Paths.{Text, same, trim_suffix, slash, trim_cwd}
use lua_testcase.Lua.Format.{bytes_of}
use lua_testcase.Walk.{
  System, Kind, regular, directory, Reading, opened, not_opened, getfiles, walkdir, walk_dirs,
  visit_all, visit_entry, listed, or_default,
}
use lua_testcase.Walk.Trees.{Entries, end, entry, file, dir, gone, Shows, depth, names_of, ShowsAll}
use lua_testcase.Walk.Found.{Answer, IsAt, getfiles_lem}

abbrev pub lib : Entries
lib = entry (bytes_of "b_test.lua") file (entry (bytes_of "notes.txt") file end)

abbrev pub tree : Entries
tree = entry (bytes_of ".git") (dir end) (
    entry (bytes_of "lib") (dir lib)
      (entry (bytes_of "a_test.lua") file (entry (bytes_of "old_test.lua") gone end)))

abbrev kind : Text → Kind ⊎ ℕ
kind p =
    if same p (bytes_of "t/")
    then inl directory
    else if same p (bytes_of "t")
    then inl directory
    else if same p (bytes_of "t/lib")
    then inl directory
    else if same p (bytes_of "t/a_test.lua")
    then inl regular
    else if same p (bytes_of "t/lib/b_test.lua")
    then inl regular
    else if same p (bytes_of "t/lib/notes.txt")
    then inl regular
    else inr 2

abbrev names : Text → Reading
names p =
    if same p (bytes_of "t")
    then opened (names_of tree) none
    else if same p (bytes_of "t/lib")
    then opened (names_of lib) none
    else not_opened 2

abbrev pub sys : System
sys = record { enoent = 2; stat = kind; readdir = names }

abbrev pub unsorted : List Text → List Text
unsorted l = l

shown : IsAt sys (bytes_of "t/") (dir tree)
shown = refl

shown_trimmed : Shows sys (trim_suffix (bytes_of "t/") slash) (dir tree)
unfolding trim_suffix
shown_trimmed =
    let inner : ShowsAll sys (bytes_of "t/lib") lib = ((λ v. refl), ((λ v. refl), tt)) in
    let rest : ShowsAll sys (bytes_of "t") tree =
      ((λ v. absurd (cc v)), ((λ v. (refl, refl, inner)), ((λ v. refl), ((λ v. refl), tt)))) in
    (refl, refl, rest)

low : depth (dir tree) ≤ 2
unfolding depth
low = omega arith

getfiles_lem_example :
    Answer unsorted
      (bytes_of "/work")
      (or_default none)
      (bytes_of "t/")
      (dir tree)
      (getfiles unsorted (bytes_of "/work") sys 2 (bytes_of "t/") none)
getfiles_lem_example =
    getfiles_lem unsorted (bytes_of "/work") sys 2 (bytes_of "t/") none (dir tree) shown
      shown_trimmed low

run :
    getfiles unsorted (bytes_of "/work") sys 2 (bytes_of "t/") none
    ≡ listed (bytes_of "t/a_test.lua" ∷ bytes_of "t/lib/b_test.lua" ∷ [])
unfolding getfiles walkdir walk_dirs visit_all visit_entry trim_suffix trim_cwd
run = refl
