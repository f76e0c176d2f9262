-- ===== src/Walk/Visits.antt =====
-- What the callback of walkdir collects of the entries of a directory.
use mathlib.Core.List.{append-nil, append_assoc}
use lua_testcase.Common.{
  ℕ, ◌≡◌, Bool, true, false, List, [], ◌∷◌, ◌++◌, if◌then◌else◌, inl, inr, ◌⊎◌, arith, refl,
  Bool-cases,
}
use lua_testcase.Paths.{Text, trim_cwd}
use lua_testcase.Walk.{System, joined, is_hidden, visit_entry, visit_all}
use lua_testcase.Walk.Trees.{
  Node, Entries, file, dir, closed, special, gone, bad, end, entry, names_of, Shows, ShowsAll,
  files_in, is_test, own_file,
}

-- What stat fails for among the entries themselves, and the directories among them.
abbrev pub is_bad : Node → Bool
is_bad (bad e) = true
is_bad file = false
is_bad (dir es) = false
is_bad (closed e) = false
is_bad special = false
is_bad gone = false

abbrev pub is_dir : Node → Bool
is_dir (dir es) = true
is_dir (closed e) = true
is_dir file = false
is_dir special = false
is_dir gone = false
is_dir (bad e) = false

abbrev pub own_bad : Text → Node → Bool
own_bad n t = if is_hidden n then false else is_bad t

abbrev pub has_bad : Entries → Bool
has_bad end = false
has_bad (entry n t es) = if own_bad n t then true else has_bad es

abbrev pub own_dir : Text → Text → Node → List Text
own_dir p n t = if is_hidden n then [] else if is_dir t then joined p n ∷ [] else []

abbrev pub dirs_of : Text → Entries → List Text
dirs_of p end = []
dirs_of p (entry n t es) = own_dir p n t ++ dirs_of p es

abbrev pub Visited : Bool → List Text → List Text → (List Text × List Text) ⊎ ℕ → Type 0
Visited true fs ds r = (e : ℕ) × (r ≡ inr e)
Visited false fs ds r = r ≡ inl (fs, ds)

module _ (cwd : Text) (sys : System) (suffix : Text) where
  pub visit_shown :
      (p n : Text) (t : Node) (fs ds : List Text)
      → is_hidden n ≡ false
      → Shows sys (joined p n) t
      → Visited
          (is_bad t)
          (fs ++ (if is_test suffix n t then trim_cwd cwd (joined p n) ∷ [] else []))
          (ds ++ (if is_dir t then joined p n ∷ [] else []))
          (visit_entry cwd sys suffix p n fs ds)
  unfolding visit_entry
  visit_shown p n file fs ds v h = rw (v, h) ground (arith, append-nil fs, append-nil ds)
  visit_shown p n (dir es) fs ds v h = rw (v, h.0) ground (arith, append-nil fs)
  visit_shown p n (closed e) fs ds v h = rw (v, h.0) ground (arith, append-nil fs)
  visit_shown p n special fs ds v h = rw (v, h) ground (arith, append-nil fs, append-nil ds)
  visit_shown p n gone fs ds v h = rw (v, h) ground (arith, append-nil fs, append-nil ds)
  visit_shown p n (bad e) fs ds v h = rw (v, h.0) (e, rw h.1 refl)

  pub visit_hidden :
      (p n : Text) (fs ds : List Text)
      → is_hidden n ≡ true
      → visit_entry cwd sys suffix p n fs ds ≡ inl (fs ++ [], ds ++ [])
  unfolding visit_entry
  visit_hidden p n fs ds v = rw (v, append-nil fs, append-nil ds) refl

  pub visit_entry_lem :
      (p n : Text) (t : Node) (fs ds : List Text)
      → (is_hidden n ≡ false → Shows sys (joined p n) t)
      → Visited
          (own_bad n t)
          (fs ++ own_file cwd suffix p n t)
          (ds ++ own_dir p n t)
          (visit_entry cwd sys suffix p n fs ds)
  visit_entry_lem p n t fs ds h = elim (Bool-cases (is_hidden n)) [
    | inl v ↦ rw v (visit_hidden p n fs ds v)
    | inr v ↦ rw v (visit_shown p n t fs ds v (h v))
  ]

  pub visit_all_lem :
      (p : Text) (es : Entries) (fs ds : List Text)
      → ShowsAll sys p es
      → Visited
          (has_bad es)
          (fs ++ files_in cwd suffix p es)
          (ds ++ dirs_of p es)
          (visit_all cwd sys suffix p (names_of es) fs ds)
  unfolding visit_all files_in
  visit_all_lem p end fs ds h = rw (append-nil fs, append-nil ds) refl
  visit_all_lem p (entry n t es) fs ds h =
      let first = visit_entry_lem p n t fs ds h.0 in
      let rest = visit_all_lem p es (fs ++ own_file cwd suffix p n t) (ds ++ own_dir p n t) h.1 in
      elim (Bool-cases (own_bad n t)) [
        | inl b ↦
            let (e, r) : (e : ℕ) × (visit_entry cwd sys suffix p n fs ds ≡ inr e) = rw b at first in
            let step : visit_all cwd sys suffix p (names_of (entry n t es)) fs ds ≡ inr e =
              ground arith in
            rw b (e, step)
        | inr b ↦
            let r : visit_entry cwd sys suffix p n fs ds
                ≡ inl (fs ++ own_file cwd suffix p n t, ds ++ own_dir p n t) =
              rw b at first in
            let step : visit_all cwd sys suffix p (names_of (entry n t es)) fs ds
                ≡ visit_all cwd sys suffix p (names_of es) (fs ++ own_file cwd suffix p n t)
                    (ds ++ own_dir p n t) =
              ground arith in
            rw
              (
                b,
                step,
                ← append_assoc fs (own_file cwd suffix p n t) (files_in cwd suffix p es),
                ← append_assoc ds (own_dir p n t) (dirs_of p es),
              )
              rest
      ]
