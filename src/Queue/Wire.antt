-- ===== src/Queue/Wire.antt =====
-- internal/queue/queue.go: `serialize` and `deserialize`, the wire form Type|Body.
use Prim.Native.Char.{Char, code}
use Prim.Native.String
use text.Mathlib.TextLemmas.{nil-append, cons-append, append_assoc, append-nil}
use text.Mathlib.TextEquality.{Char-path}
use go_attend.Common.{
  String, ◌≡◌, refl, ◌≢◌, ◌⊎◌, inl, inr, arith, ok, Bool-cases, false, nat_eq, ◌∙◌, ap, sym,
}
use go_attend.Queue.{Message, serialize, split_bar, deserialize}

-- No character of the text is the separator.
abbrev pub NoBar : String → Type 0
NoBar String.[] = Unit
NoBar (String.◌∷◌ c s) = (code c ≢ b'|') × NoBar s

push_shift :
    (seen : String) (c : Char) (s : String)
    → String.◌++◌ (String.◌++◌ seen (String.◌∷◌ c "")) s ≡ String.◌++◌ seen (String.◌∷◌ c s)
push_shift seen c s =
    append_assoc seen (String.◌∷◌ c "") s
    ∙ ap (String.◌++◌ seen) (cons-append c "" s ∙ ap (String.◌∷◌ c) (nil-append s))

NoBar-append : (s t : String) → NoBar s → NoBar t → NoBar (String.◌++◌ s t)
NoBar-append String.[] t h k = rw nil-append k
NoBar-append (String.◌∷◌ c s) t h k = rw cons-append (h.0, NoBar-append s t h.1 k)

abbrev of_parts : String → String → Message
of_parts type body = record { type = type; body = body }

split_bar-append :
    (whole seen t b : String)
    → NoBar t
    → split_bar whole seen (String.◌++◌ t (String.◌++◌ "|" b)) ≡ of_parts (String.◌++◌ seen t) b
unfolding split_bar
split_bar-append whole seen String.[] b h =
    rw nil-append (rw (cons-append, nil-append, append-nil) refl)
split_bar-append whole seen (String.◌∷◌ c t) b h =
    let other : nat_eq (code c) b'|' ≡ false = ground arith in
    rw cons-append (
      rw other (
        split_bar-append whole (String.◌++◌ seen (String.◌∷◌ c "")) t b h.1
        ∙ ap (λ x. of_parts x b) (push_shift seen c t)))

-- A message whose type has no separator is read back as it was sent.
pub deserialize-serialize : (msg : Message) → NoBar msg.type → deserialize (serialize msg) ≡ ok msg
unfolding deserialize serialize
deserialize-serialize msg h = ap ok (
    split_bar-append (serialize msg) "" msg.type msg.body h
    ∙ ap (λ x. of_parts x msg.body) (nil-append msg.type))

-- Where the loop stops: nowhere, or at the first separator.
data Split (whole seen s : String) (msg : Message) : Type 0 where
  nowhere : NoBar s → msg ≡ of_parts "" whole → Split whole seen s msg
  at_bar :
      (t b : String)
      → NoBar t
      → s ≡ String.◌++◌ t (String.◌++◌ "|" b)
      → msg ≡ of_parts (String.◌++◌ seen t) b
      → Split whole seen s msg

Split-cons :
    (whole seen s : String) (c : Char) (msg : Message)
    → code c ≢ b'|'
    → Split whole (String.◌++◌ seen (String.◌∷◌ c "")) s msg
    → Split whole seen (String.◌∷◌ c s) msg
Split-cons whole seen s c msg ne (nowhere h e) = nowhere (ne, h) e
Split-cons whole seen s c msg ne (at_bar t b h e m) =
    at_bar (String.◌∷◌ c t) b (ne, h)
      (ap (String.◌∷◌ c) e ∙ sym (cons-append c t (String.◌++◌ "|" b)))
      (m ∙ ap (λ x. of_parts x b) (push_shift seen c t))

one_bar : (s : String) → String.◌++◌ "" (String.◌++◌ "|" s) ≡ String.◌∷◌ "|" s
one_bar s = nil-append _ ∙ cons-append "|" "" s ∙ ap (String.◌∷◌ "|") (nil-append s)

split_bar-Split : (whole seen s : String) → Split whole seen s (split_bar whole seen s)
unfolding split_bar
split_bar-Split whole seen String.[] = nowhere tt refl
split_bar-Split whole seen (String.◌∷◌ c s) = elim (Bool-cases (nat_eq (code c) b'|')) [
  | inl bar ↦ rw bar (
      at_bar "" s tt (ap (λ x. String.◌∷◌ x s) (Char-path c "|" (ground arith)) ∙ sym (one_bar s))
        (ap (λ x. of_parts x s) (sym (append-nil seen))))
  | inr other ↦ rw other (
      Split-cons whole seen s c _ (ground arith)
        (split_bar-Split whole (String.◌++◌ seen (String.◌∷◌ c "")) s))
]

-- What the parts of a text show of it.
Split-parts :
    (s : String) (msg : Message)
    → Split s "" s msg
    → NoBar msg.type × ((serialize msg ≡ s) ⊎ (NoBar s × (msg ≡ of_parts "" s)))
unfolding serialize
Split-parts s msg (nowhere h e) = (rw e tt, inr (h, e))
Split-parts s msg (at_bar t b h e m) =
    let m' : msg ≡ of_parts t b = m ∙ ap (λ x. of_parts x b) (nil-append t) in
    (rw m' h, inl (rw m' (sym e)))

-- Every text is read, never with an error: either it has a separator and is the wire form of the
-- message, whose type ends at the first one, or it has none and is the body of a message of no type.
pub deserialize_total :
    (s : String)
    → (msg : Message) × (deserialize s ≡ ok msg)
      × NoBar msg.type
      × ((serialize msg ≡ s) ⊎ (NoBar s × (msg ≡ of_parts "" s)))
unfolding deserialize
deserialize_total s =
    let (plain, shape) = Split-parts s (split_bar s "" s) (split_bar-Split s "" s) in
    (split_bar s "" s, refl, plain, shape)
