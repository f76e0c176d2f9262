-- ===== src/Readdir/Tests.antt =====
-- src/readdir.c in a small directory, and its theorems at concrete inputs.
use lua_testcase.Readdir.Ends.{readdir_lua_ends}
use lua_testcase.Lua.Plain.{plain}
use lua_testcase.Readdir.Visits.{
  UsesOpen, visit, streams, readdir_lua-visit, reads, callbacks, readdir_lua_closes,
}
use lua_testcase.Lua.{Value, string, function, nil}
use lua_testcase.Common.{
  List, String, ◌∷◌, none, [], ◌≡◌, if◌then◌else◌, true, ◌⊎◌, str_eq, some, get_elem?, ◌+◌, refl,
  arith, ℕ, ◌≢◌, length, ◌≤◌, suc, zero,
}
use lua_testcase.Lua.Run.{Kernel, returned}
use lua_testcase.Readdir.{
  Machine, readdir_lua, Answer, start, Call, answered, visit_entries, Reply, step, call_back, after,
  finish,
}

abbrev names : List String
names = "." ∷ ".." ∷ "a" ∷ "b" ∷ []

-- The callback gives the name "a" back, and nil for any other.
abbrev find_a : String → Answer
find_a n = answered (if str_eq n "a" then string n else nil)

abbrev directory : Kernel Call Reply
directory t (call_back f n) = record {
  opened = true;
  entry = none;
  answer = find_a n;
  errno = none;
}
directory t c = record {
  opened = true;
  entry = get_elem? names (reads t);
  answer = answered nil;
  errno = none;
}

beyond : (l : List String) (i : ℕ) → length l ≤ i → get_elem? l i ≡ none
beyond [] i h = refl
beyond (x ∷ l) zero h = absurd (omega arith)
beyond (x ∷ l) (suc i) h = beyond l i (omega arith)

abbrev fresh : Machine
fresh = record { errno = 0; top = 2 }

abbrev arguments : List Value
arguments = string "d" ∷ function 1 ∷ []

found : (readdir_lua plain 5 arguments directory fresh []).0 ≡ returned (some (string "a"))
unfolding readdir_lua start visit_entries step after finish
found = refl

readdir_lua-visit_example :
    (readdir_lua plain 5 arguments directory fresh []).0 ≡ returned (some (visit find_a 0 names))
readdir_lua-visit_example =
    readdir_lua-visit plain names 0 find_a directory "d" 1 5 fresh
      (λ t. (λ p. refl, refl, λ e. refl, refl, λ v n. refl)) (omega arith)

readdir_lua_closes_example :
    let (o, s', t) = readdir_lua plain 5 arguments directory fresh [] in
    UsesOpen t × ((o ≡ returned none) ⊎ (streams t ≡ 0)) × ((t ≡ []) ⊎ (s'.top ≡ 2 + callbacks t))
readdir_lua_closes_example = readdir_lua_closes plain directory 5 arguments fresh

readdir_lua_ends_example : (readdir_lua plain 5 arguments directory fresh []).0 ≢ returned none
readdir_lua_ends_example =
    readdir_lua_ends plain directory 4 5 arguments fresh (λ t h. beyond names (reads t) h)
      (omega arith)
