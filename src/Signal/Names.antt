-- ===== src/Signal/Names.antt =====
-- signames_lua of src/signal.c: the table from names to numbers and from numbers to names.
pub mod Numbers
pub mod Texts
use lua_testcase.Common.{
  ◌≡◌, refl, Bool, true, false, String, List, [], ◌∷◌, ◌++◌, Option, none, some, arith, str_eq,
  eq_iff, if◌then◌else◌,
}
use lua_testcase.Common.Int.{ℤ, eqb_ℤ, eqb_ℤ→eq, eqb_ℤ_refl}
use lua_testcase.Signal.{Entry}

-- The keys of the table are texts and numbers, its values numbers, texts and arrays of texts.
pub data Key : Type 0 where
  text : String → Key
  number : ℤ → Key

pub data Slot : Type 0 where
  integer : ℤ → Slot
  string : String → Slot
  array : List String → Slot

abbrev pub Table : Type 0
Table = List (Key × Slot)

abbrev pub eq_key : Key → Key → Bool
eq_key (text a) (text b) = str_eq a b
eq_key (text a) (number n) = false
eq_key (number m) (text b) = false
eq_key (number m) (number n) = eqb_ℤ m n

-- lua_rawget, where none is nil.
unfoldable pub raw_get : Key → Table → Option Slot
raw_get k [] = none
raw_get k ((j, v) ∷ t) = if eq_key j k then some v else raw_get k t

-- lua_rawset
unfoldable pub raw_set : Key → Slot → Table → Table
raw_set k v [] = (k, v) ∷ []
raw_set k v ((j, w) ∷ t) = if eq_key j k then (j, v) ∷ t else (j, w) ∷ raw_set k v t

-- What an entry makes of what stands at its number: the text, an array of the two texts, the array
-- with the text at its end, and no change of a number.
unfoldable pub add_name : Option Slot → String → Slot
add_name none s = string s
add_name (some (string old)) s = array (old ∷ s ∷ [])
add_name (some (array l)) s = array (l ++ s ∷ [])
add_name (some (integer v)) s = integer v

-- One round of the loop.
unfoldable pub add_entry : Entry → Table → Table
add_entry e t =
    let t' = raw_set (text e.name) (integer e.num) t in
    raw_set (number e.num) (add_name (raw_get (number e.num) t') e.name) t'

signames_from : List Entry → Table → Table
signames_from [] t = t
signames_from (e ∷ es) t = signames_from es (add_entry e t)

unfoldable pub signames : List Entry → Table
unfolding signames_from
signames es = signames_from es []

eq_key→eq : (j k : Key) → eq_key j k ≡ true → j ≡ k
eq_key→eq (text a) (text b) h = ground (arith, eq_iff a b)
eq_key→eq (text a) (number n) h = cc
eq_key→eq (number m) (text b) h = cc
eq_key→eq (number m) (number n) h = ground (arith, eqb_ℤ→eq m n)

eq_key_refl : (k : Key) → eq_key k k ≡ true
eq_key_refl (text a) = (eq_iff a a).1 refl
eq_key_refl (number n) = eqb_ℤ_refl n

pub raw_get-raw_set :
    (j k : Key) (v : Slot) (t : Table)
    → raw_get j (raw_set k v t) ≡ (if eq_key k j then some v else raw_get j t)
unfolding raw_get raw_set
raw_get-raw_set j k v [] = refl
raw_get-raw_set j k v ((i, w) ∷ t) =
    ground
      (arith, raw_get-raw_set j k v t, eq_key→eq i k, eq_key→eq i j, eq_key→eq k j, eq_key_refl j)
