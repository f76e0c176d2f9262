-- ===== src/Loading/Loops.antt =====
-- The loops of the luaopen_* functions over their arrays of functions.
use mathlib.Core.Path.{fun_ext}
use lua_testcase.Common.{ℕ, List, ◌∷◌, ◌≡◌, some, [], ◌∙◌, String, refl, arith, none, sym}
use lua_testcase.Loading.{
  Machine, Functions, update, M, Entries, done, ◌>>◌, Item, set_entry, push, table, text, nil,
  cfunction, raw_set, set_field,
}

-- for (ptr = ...; ptr->name; ptr++) with lua_pushstring, lua_pushcfunction and lua_rawset
unfoldable pub fill : Functions → M (Unit {0})
fill [] = done
fill ((k, f) ∷ l) = do push (text k); push (cfunction f); raw_set; fill l

-- do ... while (ptr->name), with the same body; its first round is made on the entry of NULLs too, whose
-- key is nil then.
unfoldable pub fill_do : Functions → M (Unit {0})
fill_do [] = do push nil; push nil; raw_set
fill_do ((k, f) ∷ []) = do push (text k); push (cfunction f); raw_set
fill_do ((k, f) ∷ e ∷ l) = do push (text k); push (cfunction f); raw_set; fill_do (e ∷ l)

-- for (ptr = ...; ptr->name; ptr++) with lua_pushcfunction and lua_setfield
pub fill_fields : Functions → M (Unit {0})
fill_fields [] = done
fill_fields ((k, f) ∷ l) = do push (cfunction f); set_field k; fill_fields l

-- The entries of an array, set one after the other.
abbrev pub set_all : Functions → Entries → Entries
set_all [] t = t
set_all ((k, f) ∷ l) t = set_all l (set_entry k (cfunction f) t)

-- A machine by its parts.
abbrev pub machine : (ℕ → Entries) → ℕ → List (String × ℕ) → List Item → Machine
machine h n r st = record { heap = h; next = n; registry = r; stack = st }

update_again :
    (h : ℕ → Entries) (a : ℕ) (t : Entries) (g : Entries → Entries)
    → update (update h a t) a (g (update h a t a)) ≡ update h a (g t)
update_again h a t g = fun_ext (λ j. ground arith)

update_self : (h : ℕ → Entries) (a : ℕ) → update h a (h a) ≡ h
update_self h a = fun_ext (λ j. ground arith)

-- What a loop does to the table on top of the stack.
abbrev pub Fills : (Functions → M (Unit {0})) → Functions → Type 0
Fills loop l =
    (h : ℕ → Entries) (n : ℕ) (r : List (String × ℕ)) (a : ℕ) (st : List Item)
    → loop l (machine h n r (table a ∷ st))
      ≡ some (tt, machine (update h a (set_all l (h a))) n r (table a ∷ st))

pub fill-Fills : (l : Functions) → Fills fill l
unfolding fill
fill-Fills [] h n r a st = rw (update_self h a) refl
fill-Fills ((k, f) ∷ l) h n r a st =
    let t = set_entry k (cfunction f) (h a) in
    fill-Fills l (update h a t) n r a st ∙ rw (update_again h a t (set_all l)) refl

pub fill_do-Fills : (e : String × String) (l : Functions) → Fills fill_do (e ∷ l)
unfolding fill_do
fill_do-Fills (k, f) [] h n r a st = refl
fill_do-Fills (k, f) (e ∷ l) h n r a st =
    let t = set_entry k (cfunction f) (h a) in
    fill_do-Fills e l (update h a t) n r a st ∙ rw (update_again h a t (set_all (e ∷ l))) refl

pub fill_fields-Fills : (l : Functions) → Fills fill_fields l
unfolding fill_fields
fill_fields-Fills [] h n r a st = rw (update_self h a) refl
fill_fields-Fills ((k, f) ∷ l) h n r a st =
    let t = set_entry k (cfunction f) (h a) in
    fill_fields-Fills l (update h a t) n r a st ∙ rw (update_again h a t (set_all l)) refl

-- The loops of the luaopen_* functions agree: on an array with an entry, and a table on top of the stack,
-- for with lua_rawset, do ... while, and for with lua_setfield end in the same machine. On an array
-- without an entry only do ... while faults.
pub loops_agree :
    (e : String × String) (l : Functions) (h : ℕ → Entries) (n : ℕ) (r : List (String × ℕ)) (a : ℕ)
    (st : List Item)
    → let s = machine h n r (table a ∷ st) in
      (fill_do (e ∷ l) s ≡ fill (e ∷ l) s)
      × (fill_fields (e ∷ l) s ≡ fill (e ∷ l) s)
      × (fill [] s ≡ some (tt, s))
      × (fill_fields [] s ≡ some (tt, s))
      × (fill_do [] s ≡ none)
unfolding fill fill_do fill_fields
loops_agree e l h n r a st =
    let x = fill-Fills (e ∷ l) h n r a st in
    (
      fill_do-Fills e l h n r a st ∙ sym x,
      fill_fields-Fills (e ∷ l) h n r a st ∙ sym x,
      refl,
      refl,
      refl,
    )
