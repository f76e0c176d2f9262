-- ===== src/Timer/Sleep.antt =====
-- sleep of src/timer.c. Every finite double is a whole number of units of 2 ^ -1074, and is kept as that
-- number. What Lua converts to a lua_Number, and the rounding of a product, are parameters; infinities,
-- NaN, and seconds beyond a time_t, whose conversion C leaves open, are left out.
use lua_testcase.Lua.Args.{checked, arg}
use lua_testcase.Lua.Run.{Action, ◌>>=◌, ◌>>◌, call, pure, Kernel, returned}
use lua_testcase.Lua.{Value}
use lua_testcase.Common.Int.{ℤ, pos, negsuc, neg}
use lua_testcase.Common.{
  ℕ, List, Option, ◌<◌, ◌-◌, ◌+◌, ◌/◌, ◌%◌, suc, ◌^◌, ◌*◌, ◌≡◌, ◌≤◌, zero, arith, [], ap, ◌∙◌, sym,
  some, ◌∷◌,
}
use native.Mathlib.Decide.{dec_lt}
use lua_testcase.Timer.{nsec_in_sec}

-- The units of one.
abbrev pub one_unit : ℕ
one_unit = 2 ^ 1074

pub record Floats : Type 0 where
  pub to_number : Option Value → Option ℤ
  pub round : ℕ → ℕ

-- nanosleep of a timespec.
pub data SleepCall : Type 0 where
  nanosleep : ℤ → ℤ → SleepCall

module _ (f : Floats) where
  -- tv_sec and tv_nsec for the magnitude of a number: the conversions to integers cut off; the integer
  -- part and its difference to the number are doubles again, so only the product is rounded.
  unfoldable pub seconds : ℕ → ℕ
  seconds x = x / one_unit

  unfoldable pub nanoseconds : ℕ → ℕ
  nanoseconds x = f.round ((x % one_unit) * nsec_in_sec) / one_unit

  -- Both keep the sign.
  unfoldable pub timespec : ℤ → SleepCall
  timespec (pos x) = nanosleep (pos (seconds x)) (pos (nanoseconds x))
  timespec (negsuc n) = nanosleep (neg (pos (seconds (suc n)))) (neg (pos (nanoseconds (suc n))))

  unfoldable pub sleep_lua : List Value → Action SleepCall (Unit {0}) (Unit {0}) (List Value)
  sleep_lua args = do sec ← checked 1 (f.to_number (arg args 1)); call (timespec sec); pure []

-- A number of bits, shifted: the doubles that are not negative are those of 53 bits.
abbrev pub shifted : ℕ → ℕ → ℕ
shifted c zero = c
shifted c (suc e) = 2 * shifted c e

abbrev pub distance : ℕ → ℕ → ℕ
distance a b = (a - b) + (b - a)

-- Rounding to nearest: no double lies closer.
abbrev pub IsNearest : (ℕ → ℕ) → Type 0
IsNearest round = (v c e : ℕ) → c < 2 ^ 53 → distance (round v) v ≤ distance (shifted c e) v

shifted_pow : (c j : ℕ) → shifted c j ≡ 2 ^ j * c
shifted_pow c zero = omega arith
shifted_pow c (suc j) =
    let p : 2 ^ suc j ≡ 2 * 2 ^ j = omega arith in
    omega (arith, shifted_pow c j, ap (λ (t : ℕ). t * c) p)

shifted_split : (c d j : ℕ) → shifted c (j + d) ≡ shifted (shifted c d) j
shifted_split c d zero = ap (shifted c) (omega arith)
shifted_split c d (suc j) =
    let e : suc j + d ≡ suc (j + d) = omega arith in
    ap (shifted c) e ∙ ap (λ n. 2 * n) (shifted_split c d j)

shifted_grows : (n j : ℕ) → n ≤ shifted n j
shifted_grows n zero = omega arith
shifted_grows n (suc j) = omega (arith, shifted_grows n j)

-- The part of a double after the point leaves a gap to one.
below_one : (c e : ℕ) → c < 2 ^ 53 → shifted c e % one_unit + 2 ^ 1021 ≤ one_unit
below_one c e h = elim (dec_lt e 1021) [
  | yes small ↦
      let j = 1020 - e in
      let i : 1020 ≡ j + e = omega arith in
      omega (
        arith,
        shifted_grows (shifted c e) j,
        sym (shifted_split c e j),
        ap (shifted c) i,
        shifted_pow c 1020,
      )
  | no large ↦
      let d = e - 1021 in
      let i : e ≡ 1021 + d = omega arith in
      omega (arith, ap (shifted c) i, shifted_split c d 1021, shifted_pow (shifted c d) 1021)
]

module _ (f : Floats) (nearest : IsNearest f.round) (c e : ℕ) (h : c < 2 ^ 53) where
  abbrev product : ℕ
  product = (shifted c e % one_unit) * nsec_in_sec

  -- The rounding of the product stays below 10 ^ 9, and is off by less than 2 ^ -23.
  round_bounds :
      (f.round product < nsec_in_sec * one_unit) × (distance (f.round product) product < 2 ^ 1051)
  round_bounds =
      let v = product in
      let q = v / 2 ^ 1051 in
      let small = below_one c e h in
      let z₁ = shifted_pow (nsec_in_sec * 2 ^ 23 - 1) 1051 in
      let n₁ = nearest v (nsec_in_sec * 2 ^ 23 - 1) 1051 (omega arith) in
      let z₂ = shifted_pow q 1051 in
      let n₂ = nearest v q 1051 (omega arith) in (omega arith, omega arith)

  -- Where products are rounded to the nearest double: given a double of at least 0 and below 2 ^ 63
  -- seconds, sleep makes one call of nanosleep, whose seconds fit a time_t and whose nanoseconds are less
  -- than 10 ^ 9, so that it is accepted; together they are the time that was asked for, up to one
  -- nanosecond less and 2 ^ -23 nanoseconds either way. It returns nothing, whatever the reply.
  pub sleep_lua_asks :
      (k : Kernel SleepCall (Unit {0})) (args : List Value)
      → f.to_number (arg args 1) ≡ some (pos (shifted c e))
      → shifted c e < 2 ^ 63 * one_unit
      → (s : ℕ) × (n : ℕ) × (sleep_lua f args k tt []
          ≡ (returned [], tt, (nanosleep (pos s) (pos n), tt) ∷ []))
        × (s < 2 ^ 63)
        × (n < nsec_in_sec)
        × ((s * nsec_in_sec + n) * one_unit ≤ shifted c e * nsec_in_sec + 2 ^ 1051)
        × (shifted c e * nsec_in_sec < (s * nsec_in_sec + n + 1) * one_unit + 2 ^ 1051)
  unfolding sleep_lua timespec seconds nanoseconds
  sleep_lua_asks k args number fits =
      let (below, near) = round_bounds in
      (
        shifted c e / one_unit,
        f.round product / one_unit,
        ground (arith, number),
        omega arith,
        omega arith,
        omega arith,
        omega arith,
      )
