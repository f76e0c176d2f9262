-- ===== src/Socketpair/Flags.antt =====
-- The O_NONBLOCK flag of src/socketpair.c.
use lua_testcase.Common.Int.{ℤ, pos_part, pos}
use lua_testcase.Lua.{Value, boolean, Conversions}
use lua_testcase.Socketpair.{
  nonblock_lua, Call, enabled_of, has_flag, change_flags, Reply, Platform, clear_flag, set_flag,
  getfl, failed, setfl,
}
use lua_testcase.Lua.Run.{Kernel, Trace, returned}
use lua_testcase.Common.{
  ◌≡◌, ℕ, ◌%◌, ◌<◌, ◌/◌, false, true, Bool, Bool-cases, inl, ◌∷◌, ◌≤◌, inr, ◌+◌, arith, [], refl,
  ◌-◌, sym,
}
use native.Mathlib.Decide.{dec_lt}
use native.Mathlib.Nat.{div-eq_of_lt, add-div_right, add-mod_right}

-- f and g differ at most in the one bit of m.
abbrev pub AgreeBut : ℕ → ℕ → ℕ → Type 0
AgreeBut m f g = (f % m ≡ g % m) × (f / m / 2 ≡ g / m / 2)

set_flag_lem : (f m : ℕ) → 0 < m → (has_flag (set_flag f m) m ≡ true) × AgreeBut m (set_flag f m) f
set_flag_lem f m h = elim (Bool-cases (has_flag f m)) [
  | inl e ↦ rw e (e, (refl, refl))
  | inr e ↦
      let quot : (f + m) / m ≡ f / m + 1 = add-div_right f h in
      rw e (ground arith, (add-mod_right f m, ground arith))
]

has_flag→le : (f m : ℕ) → has_flag f m ≡ true → m ≤ f
has_flag→le f m e = elim (dec_lt f m) [
  | yes lt ↦ let none_in : f / m ≡ 0 = div-eq_of_lt lt in absurd (ground arith)
  | no ge ↦ omega arith
]

clear_flag_lem :
    (f m : ℕ) → 0 < m → (has_flag (clear_flag f m) m ≡ false) × AgreeBut m (clear_flag f m) f
clear_flag_lem f m h = elim (Bool-cases (has_flag f m)) [
  | inl e ↦
      let le : m ≤ f = has_flag→le f m e in
      let back : (f - m) + m ≡ f = omega arith in
      let quot : ((f - m) + m) / m ≡ (f - m) / m + 1 = add-div_right (f - m) h in
      let rest : ((f - m) + m) % m ≡ (f - m) % m = add-mod_right (f - m) m in
      let quot' = (rw back at quot) in
      let rest' = (rw back at rest) in rw e (ground arith, (sym rest', ground arith))
  | inr e ↦ rw e (e, (refl, refl))
]

-- The system's flags of a descriptor: fcntl does not fail, gives flags that are not negative, and gives
-- what was set last.
pub record KeepsFlags (k : Kernel Call Reply) : Type 0 where
  pub gives :
      (t : Trace Call Reply) (s : ℤ) → (k t (getfl s)).ret ≡ pos (pos_part (k t (getfl s)).ret)
  pub sets : (t : Trace Call Reply) (s : ℤ) (f : ℕ) → failed (k t (setfl s f)) ≡ false
  pub keeps :
      (t : Trace Call Reply) (s : ℤ) (f : ℕ) (a : Reply)
      → failed a ≡ false
      → (k ((setfl s f, a) ∷ t) (getfl s)).ret ≡ pos f

-- Where the system keeps flags, nonblock with a boolean returns the mode that was in force before, and
-- leaves the socket in the mode asked for, which the next call of nonblock reports, with every other
-- flag as it was.
pub nonblock_lua_toggles :
    (p : Platform) (c : Conversions) (k : Kernel Call Reply) (self : Value) (b : Bool) (s : ℤ)
    (t : Trace Call Reply)
    → 0 < p.o_nonblock
    → KeepsFlags k
    → let old = pos_part (k t (getfl s)).ret in
      let (o, s', t') = nonblock_lua p c (self ∷ boolean b ∷ []) k s t in
      let new = pos_part (k t' (getfl s)).ret in
      (o ≡ returned (boolean (has_flag old p.o_nonblock) ∷ []))
      × (s' ≡ s)
      × ((nonblock_lua p c (self ∷ []) k s' t').0 ≡ returned (boolean b ∷ []))
      × AgreeBut p.o_nonblock new old
unfolding nonblock_lua enabled_of change_flags
nonblock_lua_toggles p c k self true s t h law =
    let r = k t (getfl s) in
    let old = pos_part r.ret in
    let f = set_flag old p.o_nonblock in
    let t₁ : Trace Call Reply = (getfl s, r) ∷ t in
    let a = k t₁ (setfl s f) in
    let (on, rest) = set_flag_lem old p.o_nonblock h in
    ground (arith, law.gives t s, law.sets t₁ s f, law.keeps t₁ s f a (law.sets t₁ s f))
nonblock_lua_toggles p c k self false s t h law =
    let r = k t (getfl s) in
    let old = pos_part r.ret in
    let f = clear_flag old p.o_nonblock in
    let t₁ : Trace Call Reply = (getfl s, r) ∷ t in
    let a = k t₁ (setfl s f) in
    let (on, rest) = clear_flag_lem old p.o_nonblock h in
    ground (arith, law.gives t s, law.sets t₁ s f, law.keeps t₁ s f a (law.sets t₁ s f))
