-- ===== src/Walk/Found.antt =====
-- What getfiles returns.
use lua_testcase.Common.{
  ℕ, suc, ◌≡◌, true, false, List, [], ◌∷◌, Option, inl, ◌≤◌, arith, refl, ap, ◌∙◌, inr, ◌==◌,
}
use lua_testcase.Paths.{Text, trim_cwd, trim_suffix, slash}
use lua_testcase.Walk.{
  System, directory, not_opened, getfiles, Listing, listed, missing, error, or_default, walkdir,
  failed, sorted, regular, other,
}
use lua_testcase.Walk.Trees.{
  Node, file, dir, closed, special, gone, bad, Shows, has_broken, depth, files_of, is_broken,
}
use lua_testcase.Walk.Lists.{walkdir_lem}

-- stat answers as the node has it.
abbrev pub IsAt : System → Text → Node → Type 0
IsAt sys p file = sys.stat p ≡ inl regular
IsAt sys p (dir es) = sys.stat p ≡ inl directory
IsAt sys p (closed e) = sys.stat p ≡ inl directory
IsAt sys p special = sys.stat p ≡ inl other
IsAt sys p gone = sys.stat p ≡ inr sys.enoent
IsAt sys p (bad e) = (sys.stat p ≡ inr e) × ((e == sys.enoent) ≡ false)

module _ (sort : List Text → List Text) (cwd : Text) where
  -- What getfiles is to return for what is at the name.
  abbrev pub Answer : Text → Text → Node → Listing → Type 0
  Answer suffix p file r = r ≡ listed (trim_cwd cwd p ∷ [])
  Answer suffix p (dir es) r =
      (has_broken es ≡ false
        → r ≡ listed (sort (files_of cwd suffix (trim_suffix p slash) (dir es))))
      × (has_broken es ≡ true → (e : ℕ) × (r ≡ error e))
  Answer suffix p (closed e) r = (e' : ℕ) × (r ≡ error e')
  Answer suffix p special r = r ≡ listed (sort [])
  Answer suffix p gone r = r ≡ missing
  Answer suffix p (bad e) r = r ≡ error e

  -- Where stat answers for a name, and the system shows the tree at the name without a slash at its end, with fuel for its
  -- depth: getfiles returns, sorted, the files of the tree with the suffix, at any depth but below no name
  -- with a dot first, each as trim_cwd names it; and an error if a directory or an entry there that has no
  -- dot first cannot be read. A file gives its own name, and where there is nothing it returns nil.
  pub getfiles_lem :
      (sys : System) (fuel : ℕ) (pathname : Text) (suffix : Option Text) (t : Node)
      → IsAt sys pathname t
      → Shows sys (trim_suffix pathname slash) t
      → depth t ≤ fuel
      → Answer (or_default suffix) pathname t (getfiles sort cwd sys fuel pathname suffix)
  unfolding getfiles depth is_broken
  getfiles_lem sys fuel p x file h g le = ground (arith, h)
  getfiles_lem sys fuel p x special h g le = ground (arith, h)
  getfiles_lem sys fuel p x gone h g le = ground (arith, h)
  getfiles_lem sys fuel p x (bad e) h g le = ground (arith, h.0, h.1)
  getfiles_lem sys fuel p x (closed e) h g le =
      let (e', r) =
        walkdir_lem cwd sys (or_default x) fuel (trim_suffix p slash) (closed e) [] g refl le in
      let step : getfiles sort cwd sys fuel p x ≡ error e' = ground (arith, h, r) in (e', step)
  getfiles_lem sys fuel p x (dir es) h g le =
      let walk =
        walkdir_lem cwd sys (or_default x) fuel (trim_suffix p slash) (dir es) [] g refl le in
      let step : getfiles sort cwd sys fuel p x
          ≡ sorted sort (walkdir cwd sys (or_default x) fuel (trim_suffix p slash) []) =
        ground (arith, h) in
      (
        λ fine. step ∙ ap (sorted sort) (rw fine at walk),
        λ broken.
            let (e, r) : (e : ℕ) × (walkdir cwd sys (or_default x) fuel (trim_suffix p slash) []
                  ≡ failed e) =
              rw broken at walk in
            (e, step ∙ ap (sorted sort) r),
      )

  -- trim_suffix makes the empty name of the root, which opendir does not find.
  getfiles_root :
      (sys : System) (fuel : ℕ) (suffix : Option Text)
      → sys.stat slash ≡ inl directory
      → sys.readdir [] ≡ not_opened sys.enoent
      → getfiles sort cwd sys (suc fuel) slash suffix ≡ error sys.enoent
  unfolding getfiles walkdir trim_suffix
  getfiles_root sys fuel suffix h g = ground (arith, h, g)
