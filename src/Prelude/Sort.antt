-- ===== src/Prelude/Sort.antt =====
-- `sort.Strings`. The sorted order of texts is unique, so any sort gives the list that Go's gives.
use mathlib.Core.List.{Perm}
use mathlib.Core.List.Perm
use dp_topic_api.Prelude.Text.{str_le, str_le_total, str_le_trans}
use Prim.Native.Nat.{suc}
use Prim.Native.String.{String}
use mathlib.Core.Path.{◌≡◌, refl, ap, ◌∙◌}
use mathlib.Core.Logic.{inl, inr}
use mathlib.Core.Bool.{true}
use mathlib.Core.List.{List, [], ◌∷◌}
use native.Mathlib.Omega.{arith}
use dp_topic_api.Prelude.Tests.{if◌then◌else◌, Bool-cases}
use dp_topic_api.Prelude.Lists.{All, length}

insert_text : String → List String → List String
insert_text x [] = x ∷ []
insert_text x (y ∷ ys) = if str_le x y then x ∷ y ∷ ys else y ∷ insert_text x ys

unfoldable pub sort_strings : List String → List String
unfolding insert_text str_le
sort_strings [] = []
sort_strings (x ∷ xs) = insert_text x (sort_strings xs)

-- Ascending: each text is at most every later one.
abbrev pub IsSorted : List String → Type 0
IsSorted [] = Unit
IsSorted (x ∷ xs) = All (λ y. str_le x y ≡ true) xs × IsSorted xs

All-weaken :
    (x y : String) (ys : List String)
    → str_le x y ≡ true
    → All (λ z. str_le y z ≡ true) ys
    → All (λ z. str_le x z ≡ true) ys
All-weaken x y [] h k = tt
All-weaken x y (z ∷ ys) h (p, k) = (str_le_trans x y z h p, All-weaken x y ys h k)

All-insert_text :
    (P : String → Type 0) (x : String) (xs : List String)
    → P x
    → All P xs
    → All P (insert_text x xs)
unfolding insert_text
All-insert_text P x [] p h = (p, tt)
All-insert_text P x (y ∷ ys) p (q, h) = elim (Bool-cases (str_le x y)) [
  | inl e ↦ rw e (p, (q, h))
  | inr e ↦ rw e (q, All-insert_text P x ys p h)
]

insert_text-IsSorted : (x : String) (xs : List String) → IsSorted xs → IsSorted (insert_text x xs)
unfolding insert_text
insert_text-IsSorted x [] h = (tt, tt)
insert_text-IsSorted x (y ∷ ys) (p, h) = elim (Bool-cases (str_le x y)) [
  | inl e ↦ rw e ((e, All-weaken x y ys e p), (p, h))
  | inr e ↦
      let back : str_le y x ≡ true = ground (arith, str_le_total x y) in
      rw e (All-insert_text (λ z. str_le y z ≡ true) x ys back p, insert_text-IsSorted x ys h)
]

pub sort_strings-IsSorted : (xs : List String) → IsSorted (sort_strings xs)
unfolding sort_strings
sort_strings-IsSorted [] = tt
sort_strings-IsSorted (x ∷ xs) = insert_text-IsSorted x (sort_strings xs) (sort_strings-IsSorted xs)

insert_text-perm : (x : String) (xs : List String) → Perm (insert_text x xs) (x ∷ xs)
unfolding insert_text
insert_text-perm x [] = Perm.refl (x ∷ [])
insert_text-perm x (y ∷ ys) = elim (Bool-cases (str_le x y)) [
  | inl e ↦ rw e (Perm.refl (x ∷ y ∷ ys))
  | inr e ↦ rw e (Perm.trans (Perm.cons y (insert_text-perm x ys)) (Perm.swap x y ys))
]

pub sort_strings-perm : (xs : List String) → Perm (sort_strings xs) xs
unfolding sort_strings
sort_strings-perm [] = Perm.refl []
sort_strings-perm (x ∷ xs) =
    Perm.trans (insert_text-perm x (sort_strings xs)) (Perm.cons x (sort_strings-perm xs))

length-insert_text : (x : String) (xs : List String) → length (insert_text x xs) ≡ suc (length xs)
unfolding insert_text
length-insert_text x [] = refl
length-insert_text x (y ∷ ys) = ground (arith, length-insert_text x ys)

pub length-sort_strings : (xs : List String) → length (sort_strings xs) ≡ length xs
unfolding sort_strings
length-sort_strings [] = refl
length-sort_strings (x ∷ xs) =
    length-insert_text x (sort_strings xs) ∙ ap suc (length-sort_strings xs)
