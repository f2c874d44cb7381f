-- ===== src/Cloudinary/Order.antt =====
-- internal/cloudinary/client.go: the order of texts that sort.Strings goes by, and its sorting.
use Prim.Native.Char.{Char, code}
use Prim.Native.Nat.{Ordering, compare}
use text.Mathlib.TextEquality.{codes_equal}
use text.Mathlib.TextPositions.{compare_self}
use mathlib.Core.List.{Permᴰ}
use go_attend.Common.{
  ℕ, String, ◌≡◌, refl, ap₂, ◌∙◌, subst, true, false, Bool-cases, inl, inr, List, [], ◌∷◌, nat_eq,
  arith,
}
use go_attend.Cloudinary.{le_text, insert_text, sort_strings}

le_total : (s t : String) → le_text s t ≡ false → le_text t s ≡ true
unfolding le_text
le_total String.[] t h = cc
le_total (String.◌∷◌ c s) String.[] h = refl
le_total (String.◌∷◌ c s) (String.◌∷◌ d t) h = ground (arith, le_total s t)

equal_numbers : (m n : ℕ) → nat_eq m n ≡ true → m ≡ n
equal_numbers m n h = ground arith

same_code : (c d : Char) → nat_eq (code c) (code d) ≡ true → c ≡ d
same_code c d h = codes_equal c d (
    subst (λ n. compare (code c) n ≡ Ordering.eq) (equal_numbers (code c) (code d) h)
      (compare_self (code c)))

le_antisym : (s t : String) → le_text s t ≡ true → le_text t s ≡ true → s ≡ t
unfolding le_text
le_antisym String.[] String.[] h k = refl
le_antisym String.[] (String.◌∷◌ d t) h k = cc
le_antisym (String.◌∷◌ c s) String.[] h k = cc
le_antisym (String.◌∷◌ c s) (String.◌∷◌ d t) h k = elim (Bool-cases (nat_eq (code c) (code d))) [
  | inl e ↦ ap₂ String.◌∷◌ (same_code c d e) (le_antisym s t (rw e at h) (ground (arith, e, k)))
  | inr e ↦ ground (arith, e, h, k)
]

le_trans : (s t u : String) → le_text s t ≡ true → le_text t u ≡ true → le_text s u ≡ true
unfolding le_text
le_trans String.[] t u h k = refl
le_trans (String.◌∷◌ c s) String.[] u h k = cc
le_trans (String.◌∷◌ c s) (String.◌∷◌ d t) String.[] h k = cc
le_trans (String.◌∷◌ c s) (String.◌∷◌ d t) (String.◌∷◌ e u) h k = ground (arith, le_trans s t u)

insert-insert :
    (x y : String) (l : List String)
    → insert_text x (insert_text y l) ≡ insert_text y (insert_text x l)
unfolding insert_text
insert-insert x y [] = ground (arith, le_total x y, le_antisym x y)
insert-insert x y (z ∷ l) = ground (
  arith,
  insert-insert x y l,
  le_total x y,
  le_antisym x y,
  le_total x z,
  le_total y z,
  le_trans x y z,
  le_trans y x z,
)

-- The sorted list does not depend on the order of its input.
pub sort_strings-Perm : (l m : List String) → Permᴰ l m → sort_strings l ≡ sort_strings m
unfolding sort_strings
sort_strings-Perm _ _ Permᴰ.nil = refl
sort_strings-Perm _ _ (Permᴰ.cons {l₁} {l₂} same p) =
    ap₂ insert_text same (sort_strings-Perm l₁ l₂ p)
sort_strings-Perm _ _ (Permᴰ.swap {a} {b} {l = l} e k) =
    insert-insert a b (sort_strings l)
    ∙ ap₂ (λ u v. insert_text u (insert_text v (sort_strings l))) k e
sort_strings-Perm l m (Permᴰ.trans {l₂} p q) = sort_strings-Perm l l₂ p ∙ sort_strings-Perm l₂ m q
