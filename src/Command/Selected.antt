-- ===== src/Command/Selected.antt =====
-- get_pathnames and get_files of bin/testcase.lua: the arguments to the list of test files. realpath and
-- getfiles of lib/filesystem.lua are parameters; exit(-1) is the status 255.
pub mod Names
pub mod Paths
pub mod Files
pub mod Trees
mod Tests
use lua_testcase.Common.{
  Bool, true, false, List, [], ◌∷◌, ◌++◌, Option, none, some, if◌then◌else◌, ℕ, ◌+◌, arith, ◌≡◌,
  Option-cases, inl, inr, Bool-cases, ◌∙◌, ap, ◌⊎◌, sym, refl,
}
use lua_testcase.Lua.Format.{bytes_of}
use lua_testcase.Paths.{Text, same, same_iff}
use lua_testcase.Command.{failure_status}

-- What getfiles returns: the names, nothing where the path is not there, or an error.
pub data Listing : Type 0 where
  listed : List Text → Listing
  missing failed : Listing

-- How it ends: with a value, by exit, or by the error that ipairs raises for nil.
pub data Result (A : Type 0) : Type 0 where
  got : A → Result A
  exited : ℕ → Result A
  ipairs_error : Result A

abbrev pub contains : Text → List Text → Bool
contains s [] = false
contains s (r ∷ l) = if same r s then true else contains s l

-- realpath gives a name, or fails.
module _ (realpath : Text → Option Text) (getfiles : Text → Option Text → Listing) where
  unfoldable pub pathnames_loop : List Text → List Text → Result (List Text)
  pathnames_loop seen [] = got []
  pathnames_loop seen (p ∷ l) = elim (realpath p) [
    | none ↦ exited failure_status
    | some path ↦
        let rest = pathnames_loop (path ∷ seen) l in
        if contains path seen then exited failure_status else elim rest [
          | got ps ↦ got (path ∷ ps)
          | exited n ↦ exited n
          | ipairs_error ↦ ipairs_error
        ]
  ]

  unfoldable pub get_pathnames : List Text → Result (List Text)
  get_pathnames opts = pathnames_loop [] opts

  -- The loop over the files of a path, with the names and the paths so far.
  unfoldable pub names_loop : List Text → List Text → List Text → Result (List Text × List Text)
  names_loop seen files [] = got (seen, files)
  names_loop seen files (f ∷ l) = elim (realpath f) [
    | none ↦ exited failure_status
    | some path ↦
        let old = names_loop seen files l in
        let new = names_loop (path ∷ seen) (files ++ f ∷ []) l in
        if contains path seen then old else new
  ]

  unfoldable pub files_loop : Option Text → List Text → List Text → List Text → Result (List Text)
  files_loop suffix seen files [] = got files
  files_loop suffix seen files (p ∷ l) = elim (getfiles p suffix) [
    | missing ↦ ipairs_error
    | failed ↦ exited failure_status
    | listed names ↦ elim (names_loop seen files names) [
      | got (seen', files') ↦ files_loop suffix seen' files' l
      | exited n ↦ exited n
      | ipairs_error ↦ ipairs_error
    ]
  ]

  unfoldable pub get_files : Bool → List Text → Result (List Text)
  get_files checkall opts = elim (get_pathnames opts) [
    | got ps ↦ files_loop (if checkall then some (bytes_of ".lua") else none) [] [] ps
    | exited n ↦ exited n
    | ipairs_error ↦ ipairs_error
  ]
