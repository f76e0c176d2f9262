-- ===== src/Lua/Run.antt =====
-- How a C function runs: on a state of its own (the content of a userdatum or of a static variable),
-- against an operating system that is a parameter. The system answers each call by what has been
-- called and answered before, so that every behaviour of it is some such function; the calls made
-- are kept in a trace, the last one first.
use lua_testcase.Common.{List, ◌∷◌, ℕ, Bool, true, false}
use lua_testcase.Lua.{Raise}

-- How a run ends: it returns, it raises a Lua error, or it ends the process.
pub data Outcome (A : Type 0) : Type 0 where
  returned : A → Outcome A
  raised : Raise → Outcome A
  exited : ℕ → Outcome A

-- The trace of calls C, with replies R.
abbrev pub Trace : Type 0 → Type 0 → Type 0
Trace C R = List (C × R)

abbrev pub Kernel : Type 0 → Type 0 → Type 0
Kernel C R = Trace C R → C → R

-- A run of a C function with calls C, replies R and state S. What was stored stays stored when an
-- error is raised.
abbrev pub Action : Type 0 → Type 0 → Type 0 → Type 0 → Type 0
Action C R S A = Kernel C R → S → Trace C R → Outcome A × S × Trace C R

module _ {C R S : Type 0} where
  abbrev pub pure : {A : Type 0} → A → Action C R S A
  pure a k s t = (returned a, s, t)

  abbrev pub raise : {A : Type 0} → Raise → Action C R S A
  raise e k s t = (raised e, s, t)

  -- exit(status)
  abbrev pub exit : {A : Type 0} → ℕ → Action C R S A
  exit n k s t = (exited n, s, t)

  -- A call of the system.
  abbrev pub call : C → Action C R S R
  call c k s t = let r = k t c in (returned r, s, (c, r) ∷ t)

  abbrev pub get : Action C R S S
  get k s t = (returned s, s, t)

  abbrev pub put : S → Action C R S (Unit {0})
  put s' k s t = (returned tt, s', t)

  infixl 5 ◌>>=◌ ◌>>◌
  abbrev pub ◌>>=◌ : {A B : Type 0} → Action C R S A → (A → Action C R S B) → Action C R S B
  ◌>>=◌ m f k s t =
      let (r, s', t') = m k s t in
      elim r [
        | returned a ↦ f a k s' t'
        | raised e ↦ (raised e, s', t')
        | exited n ↦ (exited n, s', t')
      ]

  abbrev pub ◌>>◌ : {A B : Type 0} → Action C R S A → Action C R S B → Action C R S B
  m >> n = m >>= λ _. n

  -- A step that runs if the test passes.
  abbrev pub when : Bool → Action C R S (Unit {0}) → Action C R S (Unit {0})
  when true m = m
  when false m = pure tt
