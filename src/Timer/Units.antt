-- ===== src/Timer/Units.antt =====
-- The unit that src/timer.c picks for a time.
use lua_testcase.Common.{
  ℕ, ◌≤◌, ◌≡◌, ◌⊎◌, inl, inr, List, [], ◌∷◌, String, arith, All, IsOneOf, leb, Bool-cases,
}
use lua_testcase.Lua.{Value, quotient, string}
use lua_testcase.Timer.{nsec2utime}

-- A unit: its length in nanoseconds, and the format and the suffix that go with it.
abbrev pub Scale : Type 0
Scale = ℕ × String × String

-- The units, the longest last.
abbrev pub units : List Scale
units =
    (1, "%d ns", "ns")
    ∷ (1_000, "%.3f us", "us")
    ∷ (1_000_000, "%.3f ms", "ms")
    ∷ (1_000_000_000, "%.3f s", "s")
    ∷ (60_000_000_000, "%.3f m", "m")
    ∷ []

-- `u` is the longest unit that `ns` is at least as long as; below all of them it is the nanosecond.
abbrev pub IsLongest : ℕ → Scale → Type 0
IsLongest ns u =
    IsOneOf u units × ((u.0 ≤ ns) ⊎ (u.0 ≡ 1)) × All (λ (v : Scale). v.0 ≤ ns → v.0 ≤ u.0) units

abbrev pub shown : ℕ → Scale → List Value
shown ns (d, format, suffix) = quotient ns d ∷ string format ∷ string suffix ∷ []

-- nsec2utime gives the time in the longest unit that the time is at least as long as, in
-- nanoseconds below a microsecond, with the format and the suffix of that unit.
pub nsec2utime-IsLongest : (ns : ℕ) → (u : Scale) × IsLongest ns u × (nsec2utime ns ≡ shown ns u)
unfolding nsec2utime
nsec2utime-IsLongest ns = elim (Bool-cases (leb 60_000_000_000 ns)) [
  | inl a ↦ ((60_000_000_000, "%.3f m", "m"), ground arith, rw a)
  | inr a ↦ elim (Bool-cases (leb 1_000_000_000 ns)) [
    | inl b ↦ ((1_000_000_000, "%.3f s", "s"), ground arith, rw (a, b))
    | inr b ↦ elim (Bool-cases (leb 1_000_000 ns)) [
      | inl c ↦ ((1_000_000, "%.3f ms", "ms"), ground arith, rw (a, b, c))
      | inr c ↦ elim (Bool-cases (leb 1_000 ns)) [
        | inl d ↦ ((1_000, "%.3f us", "us"), ground arith, rw (a, b, c, d))
        | inr d ↦ ((1, "%d ns", "ns"), ground arith, rw (a, b, c, d))
      ]
    ]
  ]
]
