-- ===== src/Loading/Userdata/Methods.antt =====
-- Which functions Lua code reaches through the metatables of the userdata modules.
use lua_testcase.Loading.Userdata.{
  fork_mmethod, fork_method, socketpair_mmethod, socketpair_method, timer_mmethod, timer_method,
}
use lua_testcase.Loading.{
  Machine, find, Item, named, table, cfunction, Entries, M, done, ◌>>◌, entries_of,
}
use lua_testcase.Common.{
  ◌≡◌, Bool, ℕ, String, Option, str_eq, some, false, arith, none, ◌∙◌, ◌++◌, ◌∷◌, [], refl, ◌≤◌,
  List, ap, All, ◌<◌, true, eq_iff,
}
use lua_testcase.Loading.Userdata.Dispatch.{
  Module, Keeps, IsBound, opened, name_of, made-Keeps, made-Bound, method_of, mmethod_of, distinct,
  timer, fork, socketpair, made_for, with_table, timer_functions, luaopen, luaopen_lem,
}

-- A field of a metatable, and a field of the table that is its __index: obj:k for a userdatum obj.
abbrev pub metamethod : Machine → String → String → Option Item
metamethod s mt k = elim (find mt s.registry) [ none ↦ none | some m ↦ find k (s.heap m) ]

abbrev pub field_of_item : Machine → String → Option Item → Option Item
field_of_item s k (some (table i)) = find k (s.heap i)
field_of_item s k _ = none

abbrev pub method : Machine → String → String → Option Item
method s mt k = field_of_item s k (metamethod s mt "__index")

-- Lua code reaches the functions of a module through its metatable: the methods, by every name, and the
-- metamethods.
abbrev pub Reaches : Module → Machine → Type 0
Reaches x s =
    ((k : String) → method s (name_of x) k ≡ find k (entries_of (method_of x)))
    × (metamethod s (name_of x) "__gc" ≡ find "__gc" (entries_of (mmethod_of x)))
    × (metamethod s (name_of x) "__tostring" ≡ find "__tostring" (entries_of (mmethod_of x)))

abbrev metatable_of : Bool → Module → ℕ → Entries
metatable_of b x i = named b (name_of x) ++ entries_of (mmethod_of x) ++ ("__index", table i) ∷ []

index_entry : (b : Bool) (x : Module) (i : ℕ) → find "__index" (metatable_of b x i) ≡ some (table i)
index_entry true timer i = refl
index_entry true fork i = refl
index_entry true socketpair i = refl
index_entry false timer i = refl
index_entry false fork i = refl
index_entry false socketpair i = refl

metamethod_entries :
    (b : Bool) (x : Module) (i : ℕ)
    → (find "__gc" (metatable_of b x i) ≡ find "__gc" (entries_of (mmethod_of x)))
      × (find "__tostring" (metatable_of b x i) ≡ find "__tostring" (entries_of (mmethod_of x)))
metamethod_entries true timer i = (refl, refl)
metamethod_entries true fork i = (refl, refl)
metamethod_entries true socketpair i = (refl, refl)
metamethod_entries false timer i = (refl, refl)
metamethod_entries false fork i = (refl, refl)
metamethod_entries false socketpair i = (refl, refl)

metamethod_lem :
    (k : String) (x : Module) (m : ℕ) (s : Machine) (t : Entries)
    → find (name_of x) s.registry ≡ some m
    → s.heap m ≡ t
    → metamethod s (name_of x) k ≡ find k t
metamethod_lem k x m s t e a = ground (arith, e, ap (find k) a)

IsBound-Reaches : (b : Bool) (x : Module) (s : Machine) → IsBound b x s → Reaches x s
IsBound-Reaches b x s (m, i, lm, li, e, a, c) =
    let f = λ (k : String). metamethod_lem k x m s (metatable_of b x i) e a in
    let (g, h) = metamethod_entries b x i in
    (
      λ k. ap (field_of_item s k) (f "__index" ∙ index_entry b x i) ∙ ap (find k) c,
      f "__gc" ∙ g,
      f "__tostring" ∙ h,
    )

with_table-Keeps :
    (mt : String) (s : Machine) (t : Entries) (st : List Item) → Keeps mt s (with_table s t st)
with_table-Keeps mt s t st = (omega arith, λ a h. ground arith, λ j e. refl)

Keeps-trans : (mt : String) (s s' s'' : Machine) → Keeps mt s s' → Keeps mt s' s'' → Keeps mt s s''
Keeps-trans mt s s' s'' (n, h, r) (n', h', r') =
    (omega arith, λ a l. h' a (omega arith) ∙ h a l, λ j e. r' j e ∙ r j e)

opened-Keeps : (b : Bool) (x : Module) (s : Machine) → Keeps (name_of x) s (opened b x s)
opened-Keeps b timer s =
    let s' = made_for b timer s [] in
    Keeps-trans (name_of timer) s s' (opened b timer s)
      (made-Keeps b (name_of timer) timer_mmethod timer_method s [] (distinct b timer s))
      (with_table-Keeps (name_of timer) s' timer_functions (table s'.next ∷ []))
opened-Keeps b fork s =
    made-Keeps b (name_of fork) fork_mmethod fork_method s (cfunction "fork_lua" ∷ s.stack)
      (distinct b fork s)
opened-Keeps b socketpair s =
    made-Keeps b (name_of socketpair) socketpair_mmethod socketpair_method s
      (cfunction "new_lua" ∷ []) (distinct b socketpair s)

IsBound-stays :
    (b : Bool) (x : Module) (s s' : Machine)
    → s.next ≤ s'.next
    → ((a : ℕ) → a < s.next → s'.heap a ≡ s.heap a)
    → find (name_of x) s'.registry ≡ find (name_of x) s.registry
    → IsBound b x s
    → IsBound b x s'
IsBound-stays b x s s' n h r (m, i, lm, li, e, a, c) =
    (m, i, omega arith, omega arith, r ∙ e, h m lm ∙ a, h i li ∙ c)

opened-IsBound : (b : Bool) (x : Module) (s : Machine) → IsBound b x (opened b x s)
opened-IsBound b timer s =
    let s' = made_for b timer s [] in
    let (n, h, r) = with_table-Keeps (name_of timer) s' timer_functions (table s'.next ∷ []) in
    IsBound-stays b timer s' (opened b timer s) n h refl
      (made-Bound b (name_of timer) timer_mmethod timer_method s [] (distinct b timer s))
opened-IsBound b fork s =
    made-Bound b (name_of fork) fork_mmethod fork_method s (cfunction "fork_lua" ∷ s.stack)
      (distinct b fork s)
opened-IsBound b socketpair s =
    made-Bound b (name_of socketpair) socketpair_mmethod socketpair_method s
      (cfunction "new_lua" ∷ []) (distinct b socketpair s)

-- The modules are opened one after the other.
unfoldable pub open_all : Bool → List Module → M (Unit {0})
open_all b [] = done
open_all b (x ∷ l) = luaopen b x >> open_all b l

abbrev pub AreOnce : List Module → Type 0
AreOnce [] = Unit
AreOnce (x ∷ l) = All (λ y. str_eq (name_of x) (name_of y) ≡ false) l × AreOnce l

abbrev pub AreNew : List Module → Machine → Type 0
AreNew l s = All (λ x. find (name_of x) s.registry ≡ none) l

AreNew-Keeps :
    (mt : String) (l : List Module) (s s' : Machine)
    → Keeps mt s s'
    → All (λ y. str_eq mt (name_of y) ≡ false) l
    → AreNew l s
    → AreNew l s'
AreNew-Keeps mt [] s s' k d w = tt
AreNew-Keeps mt (x ∷ l) s s' k d w = (k.2 (name_of x) d.0 ∙ w.0, AreNew-Keeps mt l s s' k d.1 w.1)

swapped :
    (mt : String) (l : List Module)
    → All (λ y. str_eq mt (name_of y) ≡ false) l
    → All (λ y. str_eq (name_of y) mt ≡ false) l
swapped mt [] d = tt
swapped mt (x ∷ l) (e, d) =
    (ground (arith, eq_iff mt (name_of x), eq_iff (name_of x) mt), swapped mt l d)

pub All-map :
    {P Q : Module → Type 0} → ((x : Module) → P x → Q x) → (l : List Module) → All P l → All Q l
All-map f [] h = tt
All-map f (x ∷ l) (p, h) = (f x p, All-map f l h)

-- What was bound before stays, where it is none of those that are opened.
open_all-IsBound :
    (b : Bool) (l : List Module) (s : Machine)
    → AreOnce l
    → AreNew l s
    → (s' : Machine) × (open_all b l s ≡ some (tt, s'))
      × ((y : Module)
          → All (λ x. str_eq (name_of x) (name_of y) ≡ false) l
          → IsBound b y s
          → IsBound b y s')
      × All (λ x. IsBound b x s') l
unfolding open_all
open_all-IsBound b [] s once new = (s, refl, λ y d h. h, tt)
open_all-IsBound b (x ∷ l) s (d, once) (e, new) =
    let s₁ = opened b x s in
    let k = opened-Keeps b x s in
    let (s', run, stay, rest) =
      open_all-IsBound b l s₁ once (AreNew-Keeps (name_of x) l s s₁ k d new) in
    (
      s',
      ground (arith, luaopen_lem b x s e, run),
      λ y (h, hs) bound. stay y hs (IsBound-stays b y s s₁ k.0 k.1 (k.2 (name_of y) h) bound),
      (stay x (swapped (name_of x) l d) (opened-IsBound b x s), rest),
    )

-- Opened in any order, each once, on a machine where their metatables are not registered: every userdata
-- module's methods and metamethods are those of its arrays, and no other name reaches a method.
pub open_all-Reaches :
    (b : Bool) (l : List Module) (s : Machine)
    → AreOnce l
    → AreNew l s
    → (s' : Machine) × (open_all b l s ≡ some (tt, s')) × All (λ x. Reaches x s') l
open_all-Reaches b l s once new =
    let (s', run, _, bound) = open_all-IsBound b l s once new in
    (s', run, All-map (λ x. IsBound-Reaches b x s') l bound)
