-- ===== src/Lua/Ends.antt =====
-- Postconditions of runs that return, and the rule for one run after another.
use lua_testcase.Lua.Run.{Action, Kernel, Trace, Outcome, returned, raised, exited, ◌>>=◌}

module _ {C R S : Type 0} where
  -- The run returns, and what it returns, with the state and the trace after it, has the property.
  abbrev pub Ends : {A : Type 0} → (A → S → Trace C R → Type 0) → Outcome A × S × Trace C R → Type 0
  Ends P (returned a, s, t) = P a s t
  Ends P (raised e, s, t) = ⊥
  Ends P (exited n, s, t) = ⊥

  pub Ends-map :
      {A : Type 0} (P Q : A → S → Trace C R → Type 0) (o : Outcome A × S × Trace C R)
      → Ends P o
      → ((a : A) (s : S) (t : Trace C R) → P a s t → Q a s t)
      → Ends Q o
  Ends-map P Q (returned a, s, t) h g = g a s t h
  Ends-map P Q (raised e, s, t) h g = absurd h
  Ends-map P Q (exited n, s, t) h g = absurd h

  Ends-continued :
      {A B : Type 0} (P : A → S → Trace C R → Type 0) (Q : B → S → Trace C R → Type 0)
      (f : A → Action C R S B) (k : Kernel C R) (o : Outcome A) (s : S) (t : Trace C R)
      → Ends P (o, s, t)
      → ((a : A) (s' : S) (t' : Trace C R) → P a s' t' → Ends Q (f a k s' t'))
      → Ends Q (◌>>=◌ (λ _ _ _. (o, s, t)) f k s t)
  Ends-continued P Q f k (returned a) s t h g = g a s t h
  Ends-continued P Q f k (raised e) s t h g = absurd h
  Ends-continued P Q f k (exited n) s t h g = absurd h

  pub Ends-bind :
      {A B : Type 0} (P : A → S → Trace C R → Type 0) (Q : B → S → Trace C R → Type 0)
      (m : Action C R S A) (f : A → Action C R S B) (k : Kernel C R) (s : S) (t : Trace C R)
      → Ends P (m k s t)
      → ((a : A) (s' : S) (t' : Trace C R) → P a s' t' → Ends Q (f a k s' t'))
      → Ends Q ((m >>= f) k s t)
  Ends-bind P Q m f k s t h g = let (o, s', t') = m k s t in Ends-continued P Q f k o s' t' h g
