-- ===== src/Readdir/Visits.antt =====
-- What src/readdir.c makes of the entries of a directory.
use lua_testcase.Lua.{Value, nil, errno_object, error_object, Conversions, function, string}
use lua_testcase.Lua.Run.{Kernel, Trace, Outcome, returned}
use lua_testcase.Common.{
  String, List, ℕ, if◌then◌else◌, ◌≡◌, ◌==◌, get_elem?, ◌∷◌, ◌+◌, arith, [], suc, inl, Option, true,
  ◌-◌, zero, length, none, ◌<◌, ◌≤◌, ◌⊎◌, some, refl, inr, Bool-cases, ap, ◌∙◌,
}
use lua_testcase.Readdir.{
  readdir_lua, visit_entries, finish, Machine, Answer, Call, Reply, call_back, opendir, readdir,
  failed, closedir, or_kept, answered, is_nil, after, step, Routine, start,
}

-- The calls of readdir and of the callback in a trace, and the streams that are open after it.
abbrev pub reads : Trace Call Reply → ℕ
reads [] = 0
reads ((readdir, r) ∷ t) = suc (reads t)
reads (e ∷ t) = reads t

abbrev pub callbacks : Trace Call Reply → ℕ
callbacks [] = 0
callbacks ((call_back f n, r) ∷ t) = suc (callbacks t)
callbacks (e ∷ t) = callbacks t

abbrev pub streams : Trace Call Reply → ℕ
streams [] = 0
streams ((opendir p, r) ∷ t) = if r.opened then suc (streams t) else streams t
streams ((closedir, r) ∷ t) = streams t - 1
streams (e ∷ t) = streams t

-- readdir and closedir are called only on a stream that is open.
abbrev pub UsesOpen : Trace Call Reply → Type 0
UsesOpen [] = Unit
UsesOpen ((readdir, r) ∷ t) = (streams t ≡ 1) × UsesOpen t
UsesOpen ((closedir, r) ∷ t) = (streams t ≡ 1) × UsesOpen t
UsesOpen (e ∷ t) = UsesOpen t

-- The system has a directory of these entries, at whose end readdir sets errno to `last` (0 where it does
-- not set it), closedir does not change errno, and the callback answers each name as `f` does.
abbrev pub Lists : List String → ℕ → (String → Answer) → Kernel Call Reply → Type 0
Lists names last f k =
    (t : Trace Call Reply)
    → ((p : String) → (k t (opendir p)).opened ≡ true)
      × ((k t readdir).entry ≡ get_elem? names (reads t))
      × (get_elem? names (reads t) ≡ none → or_kept (k t readdir).errno 0 ≡ last)
      × ((k t closedir).errno ≡ none)
      × ((v : Value) (n : String) → (k t (call_back v n)).answer ≡ f n)

-- What a visit of the names gives: the first error or the first answer that is not nil, and at the end
-- the error of the last readdir, or nil.
abbrev pub visit : (String → Answer) → ℕ → List String → Value
visit f last [] = if last == 0 then nil else errno_object last "readdir" []
visit f last (n ∷ ns) =
    let rest = visit f last ns in
    elim (f n) [ failed v ↦ error_object v | answered v ↦ if is_nil v then rest else v ]

finish-closes :
    (k : Kernel Call Reply) (s : Machine) (t : Trace Call Reply)
    → streams t ≡ 1
    → UsesOpen t
    → let (o, s', t') = finish k s t in
      (streams t' ≡ 0) × UsesOpen t' × (s'.top ≡ s.top) × (callbacks t' ≡ callbacks t)
unfolding finish
finish-closes k s t h u = ground arith

-- What the loop does on any system: how the stream is used, and how the stack grows.
abbrev Closes :
    Machine → Trace Call Reply → Outcome (Option Value) × Machine × Trace Call Reply → Type 0
Closes s t (o, s', t') =
    UsesOpen t'
    × ((o ≡ returned none) ⊎ (streams t' ≡ 0))
    × (s'.top + callbacks t ≡ s.top + callbacks t')

-- What holds of the loop from any state with the stream open.
abbrev Closing : Kernel Call Reply → Routine (Option Value) → Type 0
Closing k rest =
    (s : Machine) (t : Trace Call Reply) → streams t ≡ 1 → UsesOpen t → Closes s t (rest k s t)

after-Closing :
    (a : Answer) (k : Kernel Call Reply) (rest : Routine (Option Value))
    → Closing k rest
    → Closing k (after a rest)
unfolding after
after-Closing (failed v) k rest ih s t h u = ground arith
after-Closing (answered v) k rest ih s t h u = ground (arith, ih (record s { errno = 0 }) t h u)

step-Closing :
    (e : Option String) (f : Value) (k : Kernel Call Reply) (rest : Routine (Option Value))
    → Closing k rest
    → Closing k (step e f rest)
unfolding step
step-Closing none f k rest ih s t h u = ground (arith, finish-closes k s t h u)
step-Closing (some n) f k rest ih s t h u =
    let r = k t (call_back f n) in
    let s' : Machine = record { errno = or_kept r.errno s.errno; top = s.top + 1 } in
    ground (arith, after-Closing r.answer k rest ih s' ((call_back f n, r) ∷ t) h u)

visit_entries-Closing :
    (f : Value) (fuel : ℕ) (k : Kernel Call Reply) → Closing k (visit_entries f fuel)
unfolding visit_entries
visit_entries-Closing f zero k s t h u = (u, inl refl, omega arith)
visit_entries-Closing f (suc fuel) k s t h u =
    let r = k t readdir in
    let s' : Machine = record s { errno = or_kept r.errno s.errno } in
    ground (
      arith,
      step-Closing r.entry f k (visit_entries f fuel) (visit_entries-Closing f fuel k) s'
          ((readdir, r) ∷ t) h (h, u),
    )

start_closes :
    (k : Kernel Call Reply) (path : String) (f : Value) (fuel : ℕ) (s : Machine)
    → let o = k [] (opendir path) in
      let t : Trace Call Reply = (opendir path, o) ∷ [] in
      let (r, s', t') = start o f fuel k s t in
      UsesOpen t' × ((r ≡ returned none) ⊎ (streams t' ≡ 0)) × (s'.top ≡ s.top + callbacks t')
unfolding start
start_closes k path f fuel s =
    let o = k [] (opendir path) in
    elim (Bool-cases o.opened) [
      | inl good ↦ ground (
        arith,
        visit_entries-Closing f fuel k (record s { errno = 0 }) ((opendir path, o) ∷ [])
            (ground arith) tt,
      )
      | inr bad ↦ ground arith
    ]

module _ (c : Conversions) (k : Kernel Call Reply) where
  -- Whatever the arguments, and however the system and the callback answer: readdir and closedir name
  -- only a stream that is open; a run that ends leaves no stream open; and the stack has grown by one
  -- value for each call of the callback, above the two arguments, where a call was made.
  pub readdir_lua_closes :
      (fuel : ℕ) (args : List Value) (s : Machine)
      → let (o, s', t) = readdir_lua c fuel args k s [] in
        UsesOpen t × ((o ≡ returned none) ⊎ (streams t ≡ 0)) × (t ≡ [] ⊎ s'.top ≡ 2 + callbacks t)
  unfolding readdir_lua
  readdir_lua_closes fuel args s = grind (arith, start_closes)

module _ (names : List String) (last : ℕ) (f : String → Answer) (v : Value) (k : Kernel Call Reply)
    (law : Lists names last f k) where
  visit_entries-visit :
      (fuel : ℕ) (ns : List String) (s : Machine) (t : Trace Call Reply)
      → ((j : ℕ) → get_elem? names (reads t + j) ≡ get_elem? ns j)
      → length ns < fuel
      → s.errno ≡ 0
      → 2 ≤ s.top
      → (visit_entries v fuel k s t).0 ≡ returned (some (visit f last ns))
  unfolding visit_entries after step finish
  visit_entries-visit zero ns s t at enough e h = absurd (omega arith)
  visit_entries-visit (suc fuel) [] s t at enough e h =
      let r = k t readdir in
      let (_, a, l, _, _) = law t in
      let z : get_elem? names (reads t) ≡ none = ap (get_elem? names) (omega arith) ∙ at 0 in
      ground (arith, a, z, l z, law ((readdir, r) ∷ t))
  visit_entries-visit (suc fuel) (n ∷ ns) s t at enough e h =
      let t₁ : Trace Call Reply = (readdir, k t readdir) ∷ t in
      let r = k t₁ (call_back v n) in
      let t₂ : Trace Call Reply = (call_back v n, r) ∷ t₁ in
      let s' : Machine = record { errno = 0; top = s.top + 1 } in
      let (_, a, _, _, _) = law t in
      let (_, _, _, _, b) = law t₁ in
      ground (
        arith,
        a,
        at 0,
        b v n,
        visit_entries-visit fuel ns s' t₂ (λ j. ap (get_elem? names) (omega arith) ∙ at (suc j))
            (omega arith) refl (omega arith),
      )

-- In a directory of these entries whose closedir leaves errno as it is, with a callback that
-- answers by the name alone and with more fuel than entries, readdir_lua returns what the callback
-- decides on the entries in their order: at the first that it fails on an error object made from
-- its error, at the first that it answers with a value other than nil that value, and where there
-- is neither nil, or the error of the readdir at the end where that set errno.
pub readdir_lua-visit :
    (c : Conversions) (names : List String) (last : ℕ) (f : String → Answer) (k : Kernel Call Reply)
    (path : String) (i fuel : ℕ) (s : Machine)
    → Lists names last f k
    → length names < fuel
    → (readdir_lua c fuel (string path ∷ function i ∷ []) k s []).0
      ≡ returned (some (visit f last names))
unfolding readdir_lua start
readdir_lua-visit c names last f k path i fuel s law enough =
    let r = k [] (opendir path) in
    let (o, _, _, _, _) = law [] in
    let s' : Machine = record { errno = 0; top = 2 } in
    ground (
      arith,
      o path,
      visit_entries-visit names last f (function i) k law fuel names s' ((opendir path, r) ∷ [])
          (λ j. ap (get_elem? names) (omega arith)) enough refl (omega arith),
    )
