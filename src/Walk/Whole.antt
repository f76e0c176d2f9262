-- ===== src/Walk/Whole.antt =====
-- The names of the files of a tree before trim_cwd, from the name of the tree on.
use mathlib.Core.List.{map-append}
use lua_testcase.Common.{
  ◌≡◌, refl, List, [], ◌∷◌, ◌++◌, if◌then◌else◌, map, ap, ◌∙◌, Bool-cases, inl, inr, sym,
}
use lua_testcase.Paths.{Text, trim_cwd}
use lua_testcase.Walk.{joined, is_hidden}
use lua_testcase.Walk.Trees.{
  Node, Entries, file, dir, closed, special, gone, bad, end, entry, is_test, own_file, files_in,
  files_of, files_below,
}

-- The file that an entry is.
abbrev pub own_name : Text → Text → Text → Node → List Text
own_name suffix p n t =
    if is_hidden n then [] else if is_test suffix n t then joined p n ∷ [] else []

-- The files of a directory: those that are directly in it, and then those of its directories.
unfoldable pub whole_in : Text → Text → Entries → List Text
whole_in suffix p end = []
whole_in suffix p (entry n t es) = own_name suffix p n t ++ whole_in suffix p es

unfoldable mutual
  pub whole_of : Text → Text → Node → List Text
  whole_of suffix p (dir es) = whole_in suffix p es ++ whole_below suffix p es
  whole_of suffix p file = []
  whole_of suffix p (closed e) = []
  whole_of suffix p special = []
  whole_of suffix p gone = []
  whole_of suffix p (bad e) = []

  pub whole_below : Text → Text → Entries → List Text
  whole_below suffix p end = []
  whole_below suffix p (entry n t es) =
      let own = whole_of suffix (joined p n) t in
      (if is_hidden n then [] else own) ++ whole_below suffix p es

own_file-own_name :
    (cwd suffix p n : Text) (t : Node)
    → own_file cwd suffix p n t ≡ map (trim_cwd cwd) (own_name suffix p n t)
own_file-own_name cwd suffix p n t = elim (Bool-cases (is_hidden n)) [
  | inl h ↦ rw h refl
  | inr h ↦ rw h (elim (Bool-cases (is_test suffix n t)) [ inl g ↦ rw g refl | inr g ↦ rw g refl ])
]

files_in-whole_in :
    (cwd suffix p : Text) (es : Entries)
    → files_in cwd suffix p es ≡ map (trim_cwd cwd) (whole_in suffix p es)
unfolding files_in whole_in
files_in-whole_in cwd suffix p end = refl
files_in-whole_in cwd suffix p (entry n t es) =
    rw
      (
        map-append (trim_cwd cwd) (own_name suffix p n t) (whole_in suffix p es),
        own_file-own_name cwd suffix p n t,
        files_in-whole_in cwd suffix p es,
      )
      refl

-- The files of a tree are named by trim_cwd.
mutual
  unfolding files_of whole_of

  pub files_of-whole_of :
      (cwd suffix p : Text) (t : Node)
      → files_of cwd suffix p t ≡ map (trim_cwd cwd) (whole_of suffix p t)
  files_of-whole_of cwd suffix p (dir es) =
      rw
        (
          map-append (trim_cwd cwd) (whole_in suffix p es) (whole_below suffix p es),
          files_in-whole_in cwd suffix p es,
          files_below-whole_below cwd suffix p es,
        )
        refl
  files_of-whole_of cwd suffix p file = refl
  files_of-whole_of cwd suffix p (closed e) = refl
  files_of-whole_of cwd suffix p special = refl
  files_of-whole_of cwd suffix p gone = refl
  files_of-whole_of cwd suffix p (bad e) = refl

  files_below-whole_below :
      (cwd suffix p : Text) (es : Entries)
      → files_below cwd suffix p es ≡ map (trim_cwd cwd) (whole_below suffix p es)
  files_below-whole_below cwd suffix p end = refl
  files_below-whole_below cwd suffix p (entry n t es) =
      let step =
        map-append (trim_cwd cwd) (if is_hidden n then [] else whole_of suffix (joined p n) t)
          (whole_below suffix p es) in
      let below = files_below-whole_below cwd suffix p es in
      elim (Bool-cases (is_hidden n)) [
        | inl h ↦ rw h below
        | inr h ↦ rw h (
            ap (λ x. x ++ files_below cwd suffix p es) (files_of-whole_of cwd suffix (joined p n) t)
            ∙ ap (◌++◌ (map (trim_cwd cwd) (whole_of suffix (joined p n) t))) below
            ∙ sym (
                map-append (trim_cwd cwd) (whole_of suffix (joined p n) t)
                  (whole_below suffix p es)))
      ]
