-- ===== src/Attendance/Text.antt =====
-- internal/attendance/repo.go: the two text helpers of the query.
use Prim.Native.Char.{code}
use Prim.Native.String
use text.Mathlib.TextLemmas.{nil-append, cons-append, append_assoc}
use go_attend.Common.{
  ℕ, zero, suc, ◌+◌, ◌-◌, ◌*◌, ◌/◌, ◌%◌, ◌≤◌, ◌<◌, String, ◌≡◌, refl, sym, ap, ◌∙◌, List, [], ◌∷◌,
  arith, ltb, Bool-cases, inl, inr,
}
use go_attend.Attendance.Query.{digit, itoa_rounds, itoa, join_loop, join_clauses}

-- The parts with the separator between each two of them.
abbrev pub intercalate : String → List String → String
intercalate sep [] = ""
intercalate sep (part ∷ []) = part
intercalate sep (part ∷ next ∷ parts) =
    String.◌++◌ part (String.◌++◌ sep (intercalate sep (next ∷ parts)))

join_loop_lem :
    (sep out part : String) (parts : List String)
    → join_loop sep (String.◌++◌ out part) parts ≡ String.◌++◌ out (intercalate sep (part ∷ parts))
unfolding join_loop
join_loop_lem sep out part [] = refl
join_loop_lem sep out part (next ∷ parts) =
    ap (λ o. join_loop sep o parts)
      (append_assoc out part (String.◌++◌ sep next)
        ∙ ap (String.◌++◌ out) (sym (append_assoc part sep next))
        ∙ sym (append_assoc out (String.◌++◌ part sep) next))
    ∙ join_loop_lem sep (String.◌++◌ out (String.◌++◌ part sep)) next parts
    ∙ append_assoc out (String.◌++◌ part sep) (intercalate sep (next ∷ parts))
    ∙ ap (String.◌++◌ out) (append_assoc part sep (intercalate sep (next ∷ parts)))

-- The loop that appends to one text gives the parts with the separator between each two of them.
pub join_clauses-intercalate :
    (parts : List String) (sep : String) → join_clauses parts sep ≡ intercalate sep parts
unfolding join_clauses
join_clauses-intercalate [] sep = refl
join_clauses-intercalate (part ∷ parts) sep =
    ap (λ o. join_loop sep o parts) (sym (nil-append part))
    ∙ join_loop_lem sep "" part parts
    ∙ nil-append (intercalate sep (part ∷ parts))

-- The number that a decimal text stands for, where `acc` stands before it.
abbrev pub decimal : ℕ → String → ℕ
decimal acc String.[] = acc
decimal acc (String.◌∷◌ c s) = decimal (acc * 10 + (code c - 48)) s

decimal-digit : (acc d : ℕ) → d < 10 → decimal acc (digit d) ≡ acc * 10 + d
decimal-digit acc zero h = refl
decimal-digit acc (suc zero) h = refl
decimal-digit acc (suc (suc zero)) h = refl
decimal-digit acc (suc (suc (suc zero))) h = refl
decimal-digit acc (suc (suc (suc (suc zero)))) h = refl
decimal-digit acc (suc (suc (suc (suc (suc zero))))) h = refl
decimal-digit acc (suc (suc (suc (suc (suc (suc zero)))))) h = refl
decimal-digit acc (suc (suc (suc (suc (suc (suc (suc zero))))))) h = refl
decimal-digit acc (suc (suc (suc (suc (suc (suc (suc (suc zero)))))))) h = refl
decimal-digit acc (suc (suc (suc (suc (suc (suc (suc (suc (suc zero))))))))) h = refl
decimal-digit acc (suc (suc (suc (suc (suc (suc (suc (suc (suc (suc d)))))))))) h =
    absurd (omega arith)

decimal-append :
    (acc : ℕ) (s t : String) → decimal acc (String.◌++◌ s t) ≡ decimal (decimal acc s) t
decimal-append acc String.[] t = ap (decimal acc) (nil-append t)
decimal-append acc (String.◌∷◌ c s) t =
    ap (decimal acc) (cons-append c s t) ∙ decimal-append (acc * 10 + (code c - 48)) s t

itoa_rounds_lem : (rounds i : ℕ) → i < rounds → decimal 0 (itoa_rounds rounds i) ≡ i
unfolding itoa_rounds
itoa_rounds_lem zero i h = absurd (omega arith)
itoa_rounds_lem (suc rounds) i h = elim (Bool-cases (ltb i 10)) [
  | inl small ↦ rw small (decimal-digit 0 i (ground arith) ∙ omega arith)
  | inr large ↦
      let ten : 10 ≤ i = ground arith in
      rw large (
        decimal-append 0 (itoa_rounds rounds (i / 10)) (digit (i % 10))
        ∙ decimal-digit _ (i % 10) (omega arith)
        ∙ omega (arith, itoa_rounds_lem rounds (i / 10) (omega arith)))
]

-- The rounds are enough: the text of a number, read as a decimal, is that number.
pub decimal-itoa : (i : ℕ) → decimal 0 (itoa i) ≡ i
unfolding itoa
decimal-itoa i = itoa_rounds_lem (i + 1) i (omega arith)
