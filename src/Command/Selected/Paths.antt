-- ===== src/Command/Selected/Paths.antt =====
-- The paths that get_pathnames makes of the arguments.
use lua_testcase.Common.{
  Bool, true, false, List, [], ◌∷◌, Option, none, some, if◌then◌else◌, arith, ◌≡◌, Option-cases,
  inl, inr, ◌∙◌, ap, refl,
}
use lua_testcase.Paths.{Text, same_iff}
use lua_testcase.Command.{failure_status}
use lua_testcase.Command.Selected.{Listing, Result, got, exited, contains, pathnames_loop}

abbrev pub repeats : List Text → Bool
repeats [] = false
repeats (p ∷ l) = if contains p l then true else repeats l

abbrev pub meets : List Text → List Text → Bool
meets seen [] = false
meets seen (p ∷ l) = if contains p seen then true else meets seen l

meets-cons :
    (p : Text) (seen l : List Text)
    → meets (p ∷ seen) l ≡ (if contains p l then true else meets seen l)
meets-cons p seen [] = refl
meets-cons p seen (q ∷ l) = ground (arith, meets-cons p seen l, same_iff p q, same_iff q p)

abbrev pub admitted : List Text → Option (List Text) → Result (List Text)
admitted seen none = exited failure_status
admitted seen (some ps) =
    if meets seen ps
    then exited failure_status
    else if repeats ps
    then exited failure_status
    else got ps

module _ (realpath : Text → Option Text) (getfiles : Text → Option Text → Listing) where
  -- The paths that the arguments stand for, where there are such for all of them.
  abbrev pub paths_of : List Text → Option (List Text)
  paths_of [] = some []
  paths_of (p ∷ l) = elim (realpath p) [
    | none ↦ none
    | some path ↦ elim (paths_of l) [ none ↦ none | some ps ↦ some (path ∷ ps) ]
  ]

  pub pathnames_loop_lem :
      (seen opts : List Text)
      → pathnames_loop realpath getfiles seen opts ≡ admitted seen (paths_of opts)
  unfolding pathnames_loop
  pathnames_loop_lem seen [] = refl
  pathnames_loop_lem seen (p ∷ l) = elim (Option-cases (realpath p)) [
    | inl fails ↦ ground arith
    | inr (path, is) ↦
        let rest = pathnames_loop_lem (path ∷ seen) l in
        elim (Option-cases (paths_of l)) [
          | inl fails ↦
              let ended : pathnames_loop realpath getfiles (path ∷ seen) l ≡ exited failure_status =
                rest ∙ ap (admitted (path ∷ seen)) fails in
              ground (arith, ended)
          | inr (ps, are) ↦
              let ended : pathnames_loop realpath getfiles (path ∷ seen) l
                  ≡ admitted (path ∷ seen) (some ps) =
                rest ∙ ap (admitted (path ∷ seen)) are in
              ground (arith, ended, meets-cons path seen ps)
        ]
  ]

  pub meets-nil : (l : List Text) → meets [] l ≡ false
  meets-nil [] = refl
  meets-nil (p ∷ l) = meets-nil l
