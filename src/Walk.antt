-- ===== src/Walk.antt =====
-- walkdir and getfiles of lib/filesystem.lua: the test files of a directory, with those of its directories.
-- stat and readdir answer by the name alone; readdir is the names that it gives to the callback, up to
-- one that the callback answers with an error.
pub mod Trees
pub mod Visits
pub mod Lists
pub mod Found
pub mod Whole
pub mod Tests
use lua_testcase.Common.{
  ℕ, zero, suc, ◌==◌, Bool, true, false, List, [], ◌∷◌, ◌++◌, Option, none, some, if◌then◌else◌,
  ◌⊎◌, inl, inr, length,
}
use lua_testcase.Paths.{Text, same, last_bytes, slash, trim_cwd, trim_suffix}

-- info.type: "file", "directory" or another.
pub data Kind : Type 0 where
  regular directory other : Kind

-- opendir's errno, or the names and the errno at their end.
pub data Reading : Type 0 where
  not_opened : ℕ → Reading
  opened : List Text → Option ℕ → Reading

pub record System : Type 0 where
  pub enoent : ℕ
  pub stat : Text → Kind ⊎ ℕ
  pub readdir : Text → Reading

pub data Walked : Type 0 where
  done : List Text → Walked
  failed : ℕ → Walked
  out_of_fuel : Walked

-- pathname .. '/' .. entry
abbrev pub joined : Text → Text → Text
joined pathname entry = pathname ++ (b'/' ∷ entry)

-- find(entry, '^%.')
abbrev pub is_hidden : Text → Bool
is_hidden [] = false
is_hidden (x ∷ s) = x == b'.'

abbrev pub ends_with : Text → Text → Bool
ends_with suffix entry = same (last_bytes (length suffix) entry) suffix

module _ (cwd : Text) (sys : System) (suffix : Text) where
  -- The callback, on files and dirs.
  unfoldable pub visit_entry : Text → Text → List Text → List Text → (List Text × List Text) ⊎ ℕ
  visit_entry pathname entry files dirs =
      let fullname = joined pathname entry in
      if is_hidden entry then inl (files, dirs) else elim (sys.stat fullname) [
        | inr err ↦ if err == sys.enoent then inl (files, dirs) else inr err
        | inl directory ↦ inl (files, dirs ++ fullname ∷ [])
        | inl regular ↦
            inl
              (if ends_with suffix entry then files ++ trim_cwd cwd fullname ∷ [] else files, dirs)
        | inl other ↦ inl (files, dirs)
      ]

  unfoldable pub visit_all : Text → List Text → List Text → List Text → (List Text × List Text) ⊎ ℕ
  visit_all pathname [] files dirs = inl (files, dirs)
  visit_all pathname (entry ∷ names) files dirs = elim (visit_entry pathname entry files dirs) [
    | inr err ↦ inr err
    | inl (files', dirs') ↦ visit_all pathname names files' dirs'
  ]

  -- The loop over dirs.
  unfoldable pub walk_dirs : (Text → List Text → Walked) → List Text → List Text → Walked
  walk_dirs walk [] files = done files
  walk_dirs walk (fullname ∷ dirs) files = elim (walk fullname files) [
    | failed err ↦ failed err
    | out_of_fuel ↦ out_of_fuel
    | done files' ↦ walk_dirs walk dirs files'
  ]

  -- What follows readdir.
  abbrev pub after_reading :
      (Text → List Text → Walked) → (List Text × List Text) ⊎ ℕ → Option ℕ → Walked
  after_reading walk (inr err) last = failed err
  after_reading walk (inl found) (some err) = failed err
  after_reading walk (inl (files, dirs)) none = walk_dirs walk dirs files

  unfoldable pub walkdir : ℕ → Text → List Text → Walked
  walkdir zero pathname files = out_of_fuel
  walkdir (suc fuel) pathname files = elim (sys.readdir pathname) [
    | not_opened err ↦ failed err
    | opened names last ↦ after_reading (walkdir fuel) (visit_all pathname names files []) last
  ]

-- What getfiles returns: a list, nil, or nil and an error.
pub data Listing : Type 0 where
  listed : List Text → Listing
  missing : Listing
  error : ℕ → Listing
  no_fuel : Listing

abbrev pub default_suffix : Text
default_suffix = b'_' ∷ b't' ∷ b'e' ∷ b's' ∷ b't' ∷ b'.' ∷ b'l' ∷ b'u' ∷ b'a' ∷ []

abbrev pub or_default : Option Text → Text
or_default none = default_suffix
or_default (some suffix) = suffix

abbrev pub sorted : (List Text → List Text) → Walked → Listing
sorted sort (done files) = listed (sort files)
sorted sort (failed err) = error err
sorted sort out_of_fuel = no_fuel

-- table.sort is a parameter; pathname is a string, and suffix a string or nil, as other values are refused.
module _ (sort : List Text → List Text) (cwd : Text) (sys : System) where
  unfoldable pub getfiles : ℕ → Text → Option Text → Listing
  getfiles fuel pathname suffix = elim (sys.stat pathname) [
    | inr err ↦ if err == sys.enoent then missing else error err
    | inl regular ↦ listed (trim_cwd cwd pathname ∷ [])
    | inl directory ↦
        sorted sort (walkdir cwd sys (or_default suffix) fuel (trim_suffix pathname slash) [])
    | inl other ↦ listed (sort [])
  ]
