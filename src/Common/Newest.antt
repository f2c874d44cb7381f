-- ===== src/Common/Newest.antt =====
-- Rows ordered from new to old, and the first row.
use mathlib.Core.List.{head?, Perm, List, [], ◌∷◌}
use mathlib.Core.List.Perm
use mathlib.Core.Option.{some-injective, none, some}
use mathlib.Core.Path.{◌≡◌, refl, sym}
use mathlib.Core.Logic.{◌≢◌, ◌⊎◌, inl, inr}
use Prim.Native.Nat.{ℕ, ◌≤◌, zero, suc}
use native.Mathlib.Omega.{arith}
use go_attend.Common.Tests.{leb, Bool-cases, if◌then◌else◌}
use go_attend.Common.Lists.{length, All, In, All-take, All-drop, take, drop}

module _ {A : Type 0} (time : A → ℕ) where
  -- ORDER BY a time DESC. SQL leaves the order of equal times open; here the newer row is first.
  unfoldable pub insert_newest : A → List A → List A
  insert_newest e [] = e ∷ []
  insert_newest e (x ∷ xs) =
      let rest = insert_newest e xs in if leb (time x) (time e) then e ∷ x ∷ xs else x ∷ rest

  unfoldable pub order_newest : List A → List A
  unfolding insert_newest
  order_newest [] = []
  order_newest (e ∷ es) = insert_newest e (order_newest es)

  -- No later row is newer.
  abbrev pub IsNewestFirst : List A → Type 0
  IsNewestFirst [] = Unit
  IsNewestFirst (e ∷ es) = All (λ x. time x ≤ time e) es × IsNewestFirst es

  insert_newest-All :
      (P : A → Type 0) (e : A) (es : List A) → P e → All P es → All P (insert_newest e es)
  unfolding insert_newest
  insert_newest-All P e [] h k = (h, tt)
  insert_newest-All P e (x ∷ xs) h k = elim (Bool-cases (leb (time x) (time e))) [
    | inl here ↦ rw here (h, k)
    | inr later ↦ rw later (k.0, insert_newest-All P e xs h k.1)
  ]

  All-le_trans :
      (a b : ℕ) (es : List A) → a ≤ b → All (λ x. (time x) ≤ a) es → All (λ x. (time x) ≤ b) es
  All-le_trans a b [] le h = tt
  All-le_trans a b (x ∷ xs) le h = (omega arith, All-le_trans a b xs le h.1)

  insert_newest-IsNewestFirst :
      (e : A) (es : List A) → IsNewestFirst es → IsNewestFirst (insert_newest e es)
  unfolding insert_newest
  insert_newest-IsNewestFirst e [] h = (tt, tt)
  insert_newest-IsNewestFirst e (x ∷ xs) h = elim (Bool-cases (leb (time x) (time e))) [
    | inl here ↦ rw here ((ground arith, All-le_trans (time x) (time e) xs (ground arith) h.0), h)
    | inr later ↦ rw later (
      insert_newest-All (λ y. (time y) ≤ (time x)) e xs (ground arith) h.0,
      insert_newest-IsNewestFirst e xs h.1,
    )
  ]

  pub order_newest-IsNewestFirst : (es : List A) → IsNewestFirst (order_newest es)
  unfolding order_newest
  order_newest-IsNewestFirst [] = tt
  order_newest-IsNewestFirst (e ∷ es) =
      insert_newest-IsNewestFirst e (order_newest es) (order_newest-IsNewestFirst es)

  insert_newest-perm : (e : A) (es : List A) → Perm (insert_newest e es) (e ∷ es)
  unfolding insert_newest
  insert_newest-perm e [] = Perm.refl (e ∷ [])
  insert_newest-perm e (x ∷ xs) = elim (Bool-cases (leb (time x) (time e))) [
    | inl here ↦ rw here (Perm.refl (e ∷ x ∷ xs))
    | inr later ↦ rw later (Perm.trans (Perm.cons x (insert_newest-perm e xs)) (Perm.swap e x xs))
  ]

  pub order_newest-perm : (es : List A) → Perm (order_newest es) es
  unfolding order_newest
  order_newest-perm [] = Perm.refl []
  order_newest-perm (e ∷ es) =
      Perm.trans (insert_newest-perm e (order_newest es)) (Perm.cons e (order_newest-perm es))

  In-insert_newest : (a e : A) (es : List A) → In a (insert_newest e es) → (a ≡ e) ⊎ In a es
  unfolding insert_newest
  In-insert_newest a e [] h = h
  In-insert_newest a e (x ∷ xs) h = elim (Bool-cases (leb (time x) (time e))) [
    | inl here ↦ rw here at h
    | inr later ↦ elim (rw later at h) [
      | inl eq ↦ inr (inl eq)
      | inr more ↦ elim (In-insert_newest a e xs more) [ inl eq ↦ inl eq | inr m ↦ inr (inr m) ]
    ]
  ]

  pub In-order_newest : (a : A) (es : List A) → In a (order_newest es) → In a es
  unfolding order_newest
  In-order_newest a [] h = h
  In-order_newest a (e ∷ es) h = elim (In-insert_newest a e (order_newest es) h) [
    | inl eq ↦ inl eq
    | inr more ↦ inr (In-order_newest a es more)
  ]

  pub In-head? : (a : A) (es : List A) → head? es ≡ some a → In a es
  In-head? a [] h = cc
  In-head? a (x ∷ xs) h = inl (sym (some-injective x a h))

  insert_newest-head? : (e : A) (es : List A) → head? (insert_newest e es) ≢ none
  unfolding insert_newest
  insert_newest-head? e [] h = cc
  insert_newest-head? e (x ∷ xs) h = ground arith

  -- The query has no first row only if it has no row.
  pub order_newest-none : (es : List A) → head? (order_newest es) ≡ none → es ≡ []
  unfolding order_newest
  order_newest-none [] h = refl
  order_newest-none (e ∷ es) h = absurd (insert_newest-head? e (order_newest es) h)

  pub order_newest-All : (P : A → Type 0) (es : List A) → All P es → All P (order_newest es)
  unfolding order_newest
  order_newest-All P [] h = tt
  order_newest-All P (e ∷ es) h =
      insert_newest-All P e (order_newest es) h.0 (order_newest-All P es h.1)

  insert_newest-first :
      (e : A) (es : List A) → All (λ x. time x ≤ time e) es → head? (insert_newest e es) ≡ some e
  unfolding insert_newest
  insert_newest-first e [] h = refl
  insert_newest-first e (x ∷ xs) h = ground (arith, h.0)

  -- A row that is newer than all others, or as new, is the first row.
  pub order_newest-first :
      (e : A) (es : List A) → All (λ x. time x ≤ time e) es → head? (order_newest (e ∷ es)) ≡ some e
  unfolding order_newest
  order_newest-first e es h =
      insert_newest-first e (order_newest es) (order_newest-All (λ x. time x ≤ time e) es h)

  pub take-IsNewestFirst : (n : ℕ) (es : List A) → IsNewestFirst es → IsNewestFirst (take n es)
  take-IsNewestFirst zero es h = tt
  take-IsNewestFirst (suc n) [] h = tt
  take-IsNewestFirst (suc n) (e ∷ es) h =
      (All-take (λ x. time x ≤ time e) n es h.0, take-IsNewestFirst n es h.1)

  pub drop-IsNewestFirst : (n : ℕ) (es : List A) → IsNewestFirst es → IsNewestFirst (drop n es)
  drop-IsNewestFirst zero es h = h
  drop-IsNewestFirst (suc n) [] h = tt
  drop-IsNewestFirst (suc n) (e ∷ es) h = drop-IsNewestFirst n es h.1

  -- What is left out of a page is no newer than what is on it.
  pub take-drop_older :
      (n : ℕ) (es : List A)
      → IsNewestFirst es
      → All (λ e. All (λ x. time x ≤ time e) (drop n es)) (take n es)
  take-drop_older zero es h = tt
  take-drop_older (suc n) [] h = tt
  take-drop_older (suc n) (e ∷ es) h =
      (All-drop (λ x. time x ≤ time e) n es h.0, take-drop_older n es h.1)

  length-insert_newest : (e : A) (es : List A) → length (insert_newest e es) ≡ suc (length es)
  unfolding insert_newest
  length-insert_newest e [] = refl
  length-insert_newest e (x ∷ xs) = ground (arith, length-insert_newest e xs)

  pub length-order_newest : (es : List A) → length (order_newest es) ≡ length es
  unfolding order_newest
  length-order_newest [] = refl
  length-order_newest (e ∷ es) =
      omega (arith, length-insert_newest e (order_newest es), length-order_newest es)
