-- ===== src/Select/Split.antt =====
-- What src/select.c makes of its arguments.
use lua_testcase.Common.Int.{ℤ, pos, pos_part}
use lua_testcase.Lua.Run.{Kernel, returned}
use lua_testcase.Common.{
  ℕ, List, length, take, ◌≤◌, ◌≡◌, ◌++◌, drop, ◌∷◌, [], arith, suc, ap, zero, refl, ◌-◌, ◌<◌, ◌∙◌,
  ◌+◌, take-append-drop,
}
use lua_testcase.Lua.{Conversions, Value, integer}
use lua_testcase.Select.{head_lua, tail_lua, highest}

drop_all : (n : ℕ) (l : List Value) → length l ≤ n → drop n l ≡ []
drop_all zero [] h = refl
drop_all zero (x ∷ l) h = absurd (omega arith)
drop_all (suc n) [] h = refl
drop_all (suc n) (x ∷ l) h = drop_all n l (omega arith)

take_all : (n : ℕ) (l : List Value) → length l ≤ n → take n l ≡ l
take_all zero [] h = refl
take_all zero (x ∷ l) h = absurd (omega arith)
take_all (suc n) [] h = refl
take_all (suc n) (x ∷ l) h = rw (take_all n l (omega arith))

length-take : (n : ℕ) (l : List Value) → n ≤ length l → length (take n l) ≡ n
length-take zero l h = refl
length-take (suc n) [] h = absurd (omega arith)
length-take (suc n) (x ∷ l) h = ground (arith, length-take n l)

-- All but one of the values, all of them, and those from a place on.
highest_rest : (v : Value) (xs : List Value) → highest (suc (length xs) - 1) (v ∷ xs) ≡ xs
highest_rest v xs =
    let e : suc (length xs) - (suc (length xs) - 1) ≡ 1 = omega arith in ap (λ i. drop i (v ∷ xs)) e

highest_all : (n : ℕ) (xs : List Value) → length xs ≤ n → highest n xs ≡ xs
highest_all n xs h = let e : length xs - n ≡ 0 = omega arith in ap (λ i. drop i xs) e

highest_from :
    (n : ℕ) (v : Value) (xs : List Value)
    → 1 < n
    → n ≤ length xs
    → highest (suc (length xs) - 1 - n + 1) (v ∷ xs) ≡ drop (n - 1) xs
highest_from n v xs h h' =
    let e : suc (length xs) - (suc (length xs) - 1 - n + 1) ≡ suc (n - 1) = omega arith in
    ap (λ i. drop i (v ∷ xs)) e

take_none : (n : ℕ) (xs : List Value) → n ≡ 0 → take n xs ≡ []
take_none n xs e = ap (λ i. take i xs) e

drop_none : (n : ℕ) (xs : List Value) → n ≡ 0 → drop n xs ≡ xs
drop_none n xs e = ap (λ i. drop i xs) e

module _ (c : Conversions) (k : Kernel (Unit {0}) (Unit {0})) where
  -- For any integer, head gives the other arguments up to that index, and tail those from that index
  -- on; below 1 head gives none and tail all.
  pub head_lua_and_tail_lua :
      (v : ℤ) (xs : List Value)
      → ((head_lua c (integer v ∷ xs) k tt []).0 ≡ returned (take (pos_part v) xs))
        × ((tail_lua c (integer v ∷ xs) k tt []).0 ≡ returned (drop (pos_part v - 1) xs))
  unfolding head_lua tail_lua
  head_lua_and_tail_lua v xs = grind (
    arith, highest_rest, highest_all, highest_from, take_none, drop_none, take_all, drop_all,
    length-take,
  )

  -- head at an index and tail at the next split the other arguments: put together in this order they
  -- are those arguments.
  head_lua-tail_lua :
      (n : ℕ) (xs : List Value)
      → (hs : List Value) × (ts : List Value) × ((head_lua c (integer (pos n) ∷ xs) k tt []).0
          ≡ returned hs)
        × ((tail_lua c (integer (pos (suc n)) ∷ xs) k tt []).0 ≡ returned ts)
        × (hs ++ ts ≡ xs)
  head_lua-tail_lua n xs =
      let (h, _) = head_lua_and_tail_lua (pos n) xs in
      let (_, t) = head_lua_and_tail_lua (pos (suc n)) xs in
      let e : suc n - 1 ≡ n = omega arith in
      (take n xs, drop n xs, h, t ∙ ap (λ i. returned (drop i xs)) e, take-append-drop n xs)
