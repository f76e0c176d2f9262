-- ===== src/Common/Int.antt =====
-- Signed integers over the native numbers, under the library's names, and the conversions between
-- them and the C integer types: a value of a w-bit type is kept as the number that it stands for.
use lua_testcase.Common.{
  ℕ, suc, ◌+◌, ◌-◌, ◌%◌, ◌^◌, ◌<◌, ◌≡◌, Bool, false, arith, ltb, leb, if◌then◌else◌, ◌==◌, List,
  ◌∷◌, [], ◌||◌, refl,
}

-- `negsuc n` is -(n + 1).
pub data ℤ : Type 0 where
  pos : ℕ → ℤ
  negsuc : ℕ → ℤ

abbrev pub minus_one : ℤ
minus_one = negsuc 0

abbrev pub pos_part : ℤ → ℕ
pos_part (pos n) = n
pos_part (negsuc n) = 0

abbrev pub neg_part : ℤ → ℕ
neg_part (pos n) = 0
neg_part (negsuc n) = suc n

abbrev pub ltb_ℤ : ℤ → ℤ → Bool
ltb_ℤ a b = ltb (pos_part a + neg_part b) (pos_part b + neg_part a)

abbrev pub leb_ℤ : ℤ → ℤ → Bool
leb_ℤ a b = leb (pos_part a + neg_part b) (pos_part b + neg_part a)

abbrev pub eqb_ℤ : ℤ → ℤ → Bool
eqb_ℤ (pos a) (pos b) = a == b
eqb_ℤ (pos a) (negsuc b) = false
eqb_ℤ (negsuc a) (pos b) = false
eqb_ℤ (negsuc a) (negsuc b) = a == b

-- - a
abbrev pub neg : ℤ → ℤ
neg (pos n) = if n == 0 then pos 0 else negsuc (n - 1)
neg (negsuc n) = pos (suc n)

abbrev pub u32_mod : ℕ
u32_mod = 2 ^ 32

abbrev pub u64_mod : ℕ
u64_mod = 2 ^ 64

-- The conversion of an integer to uint32_t and uint64_t: its residue.
abbrev pub to_u32 : ℤ → ℕ
to_u32 (pos n) = n % u32_mod
to_u32 (negsuc n) = u32_mod - 1 - n % u32_mod

-- The integer that a bit pattern below 2 ^ 32 stands for as an int.
abbrev pub signed32 : ℕ → ℤ
signed32 w = if ltb w (2 ^ 31) then pos w else negsuc (u32_mod - 1 - w)

-- The integer that a bit pattern below 2 ^ 64 stands for as a lua_Integer.
abbrev pub signed64 : ℕ → ℤ
signed64 w = if ltb w (2 ^ 63) then pos w else negsuc (u64_mod - 1 - w)

-- (int)v for a lua_Integer v, which wraps.
unfoldable pub to_int : ℤ → ℤ
to_int v = signed32 (to_u32 v)

pub to_int-small : (n : ℕ) → n < 2 ^ 31 → to_int (pos n) ≡ pos n
unfolding to_int
to_int-small n h = ground arith

pub eqb_ℤ→eq : (a b : ℤ) → eqb_ℤ a b ≡ Bool.true → a ≡ b
eqb_ℤ→eq a b h = ground arith

pub eqb_ℤ_refl : (a : ℤ) → eqb_ℤ a a ≡ Bool.true
eqb_ℤ_refl a = ground arith

abbrev pub is_in : ℤ → List ℤ → Bool
is_in s [] = false
is_in s (x ∷ l) = eqb_ℤ x s || is_in s l

abbrev pub remove : ℤ → List ℤ → List ℤ
remove s [] = []
remove s (x ∷ l) = if eqb_ℤ x s then l else x ∷ remove s l

pub is_in-remove : (w s : ℤ) (l : List ℤ) → eqb_ℤ s w ≡ false → is_in w (remove s l) ≡ is_in w l
is_in-remove w s [] h = refl
is_in-remove w s (x ∷ l) h = ground (arith, is_in-remove w s l h, eqb_ℤ→eq x s)

pub eqb_ℤ_comm : (a b : ℤ) → eqb_ℤ a b ≡ eqb_ℤ b a
eqb_ℤ_comm a b = ground arith
