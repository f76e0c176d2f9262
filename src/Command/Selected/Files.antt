-- ===== src/Command/Selected/Files.antt =====
-- The result of get_files.
use lua_testcase.Common.{
  Bool, true, false, List, [], Option, none, some, if◌then◌else◌, arith, ◌≡◌, Option-cases, inl,
  inr, Bool-cases, ◌∙◌, ap, refl,
}
use lua_testcase.Lua.Format.{bytes_of}
use lua_testcase.Paths.{Text}
use lua_testcase.Command.{failure_status}
use lua_testcase.Command.Selected.{
  Listing, got, exited, get_files, get_pathnames, files_loop, pathnames_loop,
}
use lua_testcase.Command.Selected.Names.{
  is_got, occurs, has_listed, all_listed, files_loop_lem, files_loop_got,
}
use lua_testcase.Command.Selected.Paths.{repeats, admitted, paths_of, pathnames_loop_lem, meets-nil}

module _ (realpath : Text → Option Text) (getfiles : Text → Option Text → Listing) where
  -- Whether the arguments can be made a list of test files.
  abbrev pub is_good : Option Text → Option (List Text) → Bool
  is_good suffix none = false
  is_good suffix (some ps) = if repeats ps then false else all_listed realpath getfiles suffix ps

  abbrev pub suffix_of : Bool → Option Text
  suffix_of checkall = if checkall then some (bytes_of ".lua") else none

  -- Where realpath and getfiles answer by their arguments alone: get_files gives a list if all arguments have
  -- paths, no two the same, and getfiles lists each of these and only files that are found; and the list it
  -- gives then has of each file that is listed, under whatever names and however often, exactly one name.
  -- Where an argument has no path, or two have the same, it exits with the status of failure.
  pub get_files_lem :
      (checkall : Bool) (opts : List Text)
      → (is_good (suffix_of checkall) (paths_of realpath getfiles opts) ≡ true
          → is_got (get_files realpath getfiles checkall opts) ≡ true)
        × ((ps files : List Text)
            → paths_of realpath getfiles opts ≡ some ps
            → get_files realpath getfiles checkall opts ≡ got files
            → (q : Text)
            → occurs realpath getfiles q files
              ≡ (if has_listed realpath getfiles (suffix_of checkall) q ps then 1 else 0))
        × ((ps : List Text)
            → paths_of realpath getfiles opts ≡ some ps
            → repeats ps ≡ true
            → get_files realpath getfiles checkall opts ≡ exited failure_status)
        × (paths_of realpath getfiles opts ≡ none
            → get_files realpath getfiles checkall opts ≡ exited failure_status)
  unfolding get_files get_pathnames
  get_files_lem checkall opts =
      let suffix = suffix_of checkall in
      let loop = pathnames_loop_lem realpath getfiles [] opts in
      let passed : (ps : List Text)
          → paths_of realpath getfiles opts ≡ some ps
          → pathnames_loop realpath getfiles [] opts
            ≡ (if repeats ps then exited failure_status else got ps) =
        λ ps are. loop ∙ ap (admitted []) are ∙ rw (meets-nil realpath getfiles ps) refl in
      (
        λ g. elim (Option-cases (paths_of realpath getfiles opts)) [
          | inl fails ↦ absurd (ground (arith, g, fails))
          | inr (ps, are) ↦
              let rest = files_loop_got realpath getfiles suffix [] [] ps in
              ground (arith, g, passed ps are, are, rest)
        ],
        λ ps files are h q. elim (Bool-cases (repeats ps)) [
          | inl bad ↦ absurd (ground (arith, passed ps are, h))
          | inr good ↦
              let files_ok = files_loop_lem realpath getfiles suffix [] [] ps (λ q. refl) in
              let run : files_loop realpath getfiles suffix [] [] ps ≡ got files =
                ground (arith, passed ps are, h) in
              let ok : (q : Text)
                  → occurs realpath getfiles q files
                    ≡ (if has_listed realpath getfiles suffix q ps then 1 else 0) =
                rw run at files_ok in
              ok q
        ],
        λ ps are bad. ground (arith, passed ps are),
        λ fails.
            let ended : pathnames_loop realpath getfiles [] opts ≡ exited failure_status =
              loop ∙ ap (admitted []) fails in
            ground arith,
      )
