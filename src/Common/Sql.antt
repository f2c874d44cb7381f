-- ===== src/Common/Sql.antt =====
-- One SQL statement on the tables of a database, and keys and references as lists of texts.
use mathlib.Core.Path.{◌≡◌, refl, ap₂}
use mathlib.Core.Logic.{inl, inr}
use mathlib.Core.Bool.{Bool, true, false}
use mathlib.Core.Option.{Option, none, some}
use mathlib.Core.List.{List, [], ◌∷◌, map}
use Prim.Native.Nat.{ℕ}
use Prim.Native.String.{String}
use native.Mathlib.Omega.{arith}
use text.Mathlib.Text.{◌==◌}
use go_attend.Common.Tests.{if◌then◌else◌, Option-cases}
use go_attend.Common.Lists.{All}
use go_attend.Common.Results.{Result, ok, err}

-- The part of the server in one statement: the error that the driver reports if the statement was
-- not executed, and the time of NOW().
pub record Call : Type 0 where
  pub fault : Option String
  pub now : ℕ

-- A statement that is executed unless the call fails.
abbrev pub execute : {S A : Type 0} → Call → S → S × Result A → S × Result A
execute call db done = elim call.fault [ some e ↦ (db, err e) | none ↦ done ]

-- A query, which changes nothing.
abbrev pub query : {A : Type 0} → Call → Result A → Result A
query call answer = elim call.fault [ some e ↦ err e | none ↦ answer ]

abbrev pub contains : String → List String → Bool
contains x [] = false
contains x (y ∷ ys) = let rest = contains x ys in if y == x then true else rest

-- An answer shows that the call did not fail.
pub query-ok :
    {A : Type 0} (call : Call) (answer : Result A) {a : A}
    → query call answer ≡ ok a
    → answer ≡ ok a
query-ok call answer h = ground arith

-- What holds before a statement and after one that is executed holds after the call.
pub execute-keeps :
    {S A : Type 0} (P : S → Type 0) (call : Call) (db : S) (done : S × Result A)
    → P db
    → P done.0
    → P (execute call db done).0
execute-keeps P call db done before after = elim (Option-cases call.fault) [
  | inl e ↦ rw e after
  | inr (text, e) ↦ rw e before
]

-- No key stands twice.
abbrev pub IsDistinct : List String → Type 0
IsDistinct [] = Unit
IsDistinct (x ∷ xs) = (contains x xs ≡ false) × IsDistinct xs

pub contains-cons :
    (d x : String) (xs : List String) → contains x xs ≡ true → contains x (d ∷ xs) ≡ true
contains-cons d x xs h = ground arith

pub All-contains_cons :
    {A : Type 0} (f : A → String) (d : String) (ds : List String) (l : List A)
    → All (λ a. contains (f a) ds ≡ true) l
    → All (λ a. contains (f a) (d ∷ ds) ≡ true) l
All-contains_cons f d ds [] h = tt
All-contains_cons f d ds (a ∷ l) h = (contains-cons d (f a) ds h.0, All-contains_cons f d ds l h.1)

-- A change of other columns keeps the column of a key.
pub map_key :
    {A : Type 0} (key : A → String) (change : A → A)
    → ((a : A) → key (change a) ≡ key a)
    → (l : List A) → map key (map change l) ≡ map key l
map_key key change same [] = refl
map_key key change same (a ∷ l) = ap₂ ◌∷◌ (same a) (map_key key change same l)

pub map_refs :
    {A : Type 0} (ref : A → String) (change : A → A) (ds : List String)
    → ((a : A) → ref (change a) ≡ ref a)
    → (l : List A) → All (λ a. contains (ref a) ds ≡ true) l
    → All (λ a. contains (ref a) ds ≡ true) (map change l)
map_refs ref change ds same [] h = tt
map_refs ref change ds same (a ∷ l) h = (rw (same a) h.0, map_refs ref change ds same l h.1)
