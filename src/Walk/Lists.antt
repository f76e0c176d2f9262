-- ===== src/Walk/Lists.antt =====
-- The files that walkdir lists, on a system that shows a tree.
use mathlib.Core.List.{append-nil, append_assoc}
use lua_testcase.Common.{
  ℕ, ◌≡◌, Bool, true, false, List, [], ◌∷◌, ◌++◌, inl, inr, arith, refl, Bool-cases, ◌≤◌, suc, zero,
  none,
}
use lua_testcase.Paths.{Text}
use lua_testcase.Walk.{
  System, joined, is_hidden, visit_all, Walked, walkdir, failed, walk_dirs, done, after_reading,
}
use lua_testcase.Walk.Trees.{
  Node, Entries, file, dir, closed, special, gone, bad, end, entry, names_of, Shows, ShowsAll,
  files_in, is_broken, depth, files_of, depth_of, has_broken, files_below,
}
use lua_testcase.Walk.Visits.{is_bad, is_dir, own_bad, has_bad, dirs_of, visit_all_lem}

module _ (cwd : Text) (sys : System) (suffix : Text) where
  abbrev pub Yields : Bool → List Text → Walked → Type 0
  Yields true fs r = (e : ℕ) × (r ≡ failed e)
  Yields false fs r = r ≡ done fs

  -- An entry that stat fails for is broken.
  bad-broken : (es : Entries) → has_bad es ≡ true → has_broken es ≡ true
  unfolding is_broken
  bad-broken end h = h
  bad-broken (entry n t es) h = elim (Bool-cases (own_bad n t)) [
    | inl b ↦ ground (arith, one t)
    | inr b ↦ ground (arith, bad-broken es (ground (arith, h, b)))
  ]
    where
      one : (t : Node) → is_bad t ≡ true → is_broken t ≡ true
      one (bad e) h = refl
      one file h = h
      one (dir es) h = absurd (cc h)
      one (closed e) h = refl
      one special h = h
      one gone h = h

  not_dir :
      (p : Text) (t : Node)
      → is_dir t ≡ false
      → is_bad t ≡ false
      → (is_broken t ≡ false) × (files_of cwd suffix p t ≡ [])
  unfolding is_broken files_of
  not_dir p file d b = (refl, refl)
  not_dir p special d b = (refl, refl)
  not_dir p gone d b = (refl, refl)
  not_dir p (bad e) d b = absurd (cc b)
  not_dir p (closed e) d b = absurd (cc d)
  not_dir p (dir es) d b = absurd (cc d)

  mutual
    unfolding walkdir walk_dirs is_broken depth files_of

    pub walkdir_lem :
        (fuel : ℕ) (p : Text) (t : Node) (fs : List Text)
        → Shows sys p t
        → is_dir t ≡ true
        → depth t ≤ fuel
        → Yields (is_broken t) (fs ++ files_of cwd suffix p t) (walkdir cwd sys suffix fuel p fs)
    walkdir_lem zero p (dir es) fs h d le = absurd (omega (arith, le))
    walkdir_lem zero p (closed e) fs h d le = absurd (omega (arith, le))
    walkdir_lem (suc fuel) p (closed e) fs h d le =
        let step : walkdir cwd sys suffix (suc fuel) p fs ≡ failed e = ground (arith, h.1) in
        (e, step)
    walkdir_lem (suc fuel) p (dir es) fs h d le =
        let seen = visit_all_lem cwd sys suffix p es fs [] h.2 in
        let step : walkdir cwd sys suffix (suc fuel) p fs
            ≡ after_reading cwd sys suffix (walkdir cwd sys suffix fuel)
                (visit_all cwd sys suffix p (names_of es) fs []) none =
          ground (arith, h.1) in
        elim (Bool-cases (has_bad es)) [
          | inl b ↦
              let (e, r) : (e : ℕ) × (visit_all cwd sys suffix p (names_of es) fs [] ≡ inr e) =
                rw b at seen in
              rw (step, r, bad-broken es b) (e, refl)
          | inr b ↦
              let r : visit_all cwd sys suffix p (names_of es) fs []
                  ≡ inl (fs ++ files_in cwd suffix p es, dirs_of p es) =
                rw b at seen in
              rw
                (
                  step,
                  r,
                  ← append_assoc fs (files_in cwd suffix p es) (files_below cwd suffix p es),
                )
                (walk_dirs_lem fuel p es (fs ++ files_in cwd suffix p es) h.2 b (omega (arith, le)))
        ]
    walkdir_lem fuel p file fs h d le = absurd (cc d)
    walkdir_lem fuel p special fs h d le = absurd (cc d)
    walkdir_lem fuel p gone fs h d le = absurd (cc d)
    walkdir_lem fuel p (bad e) fs h d le = absurd (cc d)

    walk_dirs_lem :
        (fuel : ℕ) (p : Text) (es : Entries) (fs : List Text)
        → ShowsAll sys p es
        → has_bad es ≡ false
        → depth_of es ≤ fuel
        → Yields
            (has_broken es)
            (fs ++ files_below cwd suffix p es)
            (walk_dirs cwd sys suffix (walkdir cwd sys suffix fuel) (dirs_of p es) fs)
    walk_dirs_lem fuel p end fs h b le = rw (append-nil fs) refl
    walk_dirs_lem fuel p (entry n t es) fs h b le = elim (Bool-cases (is_hidden n)) [
      | inl v ↦ rw v (walk_dirs_lem fuel p es fs h.1 (ground (arith, b, v)) (ground (arith, le)))
      | inr v ↦ elim (Bool-cases (is_dir t)) [
        | inr d ↦
            let (fine, nothing) = not_dir (joined p n) t d (ground (arith, b, v)) in
            rw (v, d, fine, nothing)
              (walk_dirs_lem fuel p es fs h.1 (ground (arith, b, v)) (ground (arith, le)))
        | inl d ↦
            let own = files_of cwd suffix (joined p n) t in
            let walk = walkdir cwd sys suffix fuel in
            let first = walkdir_lem fuel (joined p n) t fs (h.0 v) d (ground (arith, le)) in
            elim (Bool-cases (is_broken t)) [
              | inl q ↦
                  let (e, r) : (e : ℕ) × (walkdir cwd sys suffix fuel (joined p n) fs ≡ failed e) =
                    rw q at first in
                  let step : walk_dirs cwd sys suffix walk (joined p n ∷ dirs_of p es) fs
                      ≡ failed e =
                    ground (arith, r) in
                  rw (v, d, q) (e, step)
              | inr q ↦
                  let r : walkdir cwd sys suffix fuel (joined p n) fs ≡ done (fs ++ own) =
                    rw q at first in
                  let step : walk_dirs cwd sys suffix walk (joined p n ∷ dirs_of p es) fs
                      ≡ walk_dirs cwd sys suffix walk (dirs_of p es) (fs ++ own) =
                    ground (arith, r) in
                  rw (v, d, q, step, ← append_assoc fs own (files_below cwd suffix p es))
                    (walk_dirs_lem fuel p es (fs ++ own) h.1 (ground (arith, b, v))
                      (ground (arith, le)))
            ]
      ]
    ]
