-- ===== src/Registry/Results.antt =====
-- The results of add.
use lua_testcase.Common.{
  ℕ, true, String, List, Option, none, some, ◌≡◌, refl, arith, inl, inr, Option-cases, ◌⊎◌, ◌∙◌, ap,
}
use lua_testcase.Registry.{
  clear, already_defined, lookup, Stat, Entry, Registry, Addition, enter, name_of, func_of, add,
  added, add_checked, Refusal,
}
use lua_testcase.Lua.{Value}
use lua_testcase.Registry.Added.{
  accepted, entry_of, first, find, is_some, lookup-file_of, added_from_empty,
}

abbrev enter_first : Option (Stat × Entry) → Registry → Option Refusal
enter_first none r = none
enter_first (some (s, e)) r = (enter s e r).0

-- The result for what is already under its name.
abbrev pub after : Entry → Option Entry → Option Refusal
after e none = none
after e (some old) = some (already_defined e.name e.lineno old.lineno)

enter-after :
    (s : Stat) (e : Entry) (r : Registry) → (enter s e r).0 ≡ after e (find s.pathname e.name r)
unfolding enter
enter-after s e r =
    let same = lookup-file_of e.name s (lookup s.pathname r) in
    elim (Option-cases (find s.pathname e.name r)) [
      | inl new ↦ ground (arith, same)
      | inr (old, there) ↦ ground (arith, same)
    ]

-- After clear and any calls of add, a call fails where it is not accepted: its arguments are not a name
-- and a function, or the file is not found; a call that is accepted fails if and only if the file has the
-- name already, and the error then has the line of the function that was added first.
pub add_result :
    (r : Registry) (a : Addition) (l : List Addition)
    → (accepted a ≡ none → is_some (add a (added l (clear r))).0 ≡ true)
      × ((s : Stat) (e : Entry)
          → accepted a ≡ some (s, e)
          → (add a (added l (clear r))).0 ≡ after e (first s.pathname e.name l))
unfolding add add_checked
add_result r a l = by_checks (name_of a.name) (func_of a.func) a.stat
  where
    by_checks :
        (n : String ⊎ Refusal) (f : ℕ ⊎ Refusal) (s : Stat ⊎ Value)
        → (entry_of n f a.lineno s ≡ none
            → is_some (add_checked n f a.lineno s (added l (clear r))).0 ≡ true)
          × ((s' : Stat) (e : Entry)
              → entry_of n f a.lineno s ≡ some (s', e)
              → (add_checked n f a.lineno s (added l (clear r))).0
                ≡ after e (first s'.pathname e.name l))
    by_checks (inl n) (inl f) (inl s) = (
      λ h. absurd (cc h),
      λ s' e h.
          let one : some (s, record { name = n; func = f; lineno = a.lineno }) ≡ some (s', e) = h in
          ap (λ x. enter_first x (added l (clear r))) one
          ∙ enter-after s' e (added l (clear r))
          ∙ ap (after e) (added_from_empty s'.pathname e.name l).0,
    )
    by_checks (inl n) (inl f) (inr e) = (λ h. refl, λ s' e' h. absurd (cc h))
    by_checks (inl n) (inr e) s = (λ h. refl, λ s' e' h. absurd (cc h))
    by_checks (inr e) f s = (λ h. refl, λ s' e' h. absurd (cc h))
