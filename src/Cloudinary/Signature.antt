-- ===== src/Cloudinary/Signature.antt =====
-- internal/cloudinary/client.go: the signature of an upload, and what it is the digest of.
use mathlib.Core.List.{Permᴰ}
use mathlib.Core.List.Permᴰ
use Prim.Native.String
use text.Mathlib.TextLemmas.{cons-append}
use go_attend.Common.{
  String, ◌≡◌, refl, if◌then◌else◌, false, sym, ap, ap₂, ◌∙◌, subst, Bool-cases, inl, inr, not,
  ◌&&◌, [], ◌∷◌, ◌==◌, List, true,
}
use go_attend.Attendance.Query.{join_clauses}
use go_attend.Cloudinary.{
  Client, Params, excluded, signed_pairs, sort_strings, sign, upload_params, signed_params,
}
use go_attend.Cloudinary.Order.{sort_strings-Perm}

signed_pairs-entry :
    (e : String × String) (l m : Params)
    → Permᴰ (signed_pairs l) (signed_pairs m)
    → Permᴰ (signed_pairs (e ∷ l)) (signed_pairs (e ∷ m))
unfolding signed_pairs
signed_pairs-entry (k, v) l m p = elim (Bool-cases (not (excluded k) && not (v == ""))) [
  | inl e ↦ rw e (Permᴰ.cons refl p)
  | inr e ↦ rw e p
]

signed_pairs-two :
    (e f : String × String) (l : Params)
    → Permᴰ (signed_pairs (e ∷ f ∷ l)) (signed_pairs (f ∷ e ∷ l))
unfolding signed_pairs
signed_pairs-two (k, v) (k', v') l = elim (Bool-cases (not (excluded k) && not (v == ""))) [
  | inl e ↦ elim (Bool-cases (not (excluded k') && not (v' == ""))) [
    | inl e' ↦ rw (e, e') (Permᴰ.swap refl refl)
    | inr e' ↦ rw (e, e') (Permᴰ.refl _)
  ]
  | inr e ↦ elim (Bool-cases (not (excluded k') && not (v' == ""))) [
    | inl e' ↦ rw (e, e') (Permᴰ.refl _)
    | inr e' ↦ rw (e, e') (Permᴰ.refl _)
  ]
]

signed_pairs-Perm : (l m : Params) → Permᴰ l m → Permᴰ (signed_pairs l) (signed_pairs m)
signed_pairs-Perm _ _ Permᴰ.nil = Permᴰ.refl _
signed_pairs-Perm _ _ (Permᴰ.cons {a} {b} {l₁} {l₂} same p) =
    subst (λ x. Permᴰ (signed_pairs (a ∷ l₁)) (signed_pairs (x ∷ l₂))) same
      (signed_pairs-entry a l₁ l₂ (signed_pairs-Perm l₁ l₂ p))
signed_pairs-Perm _ _ (Permᴰ.swap {a} {b} {a' = c} {b' = d} {l = l} e f) =
    subst
      (λ (p : (String × String) × (String × String)).
        Permᴰ (signed_pairs (a ∷ b ∷ l)) (signed_pairs (p.0 ∷ p.1 ∷ l)))
      (ap₂ (λ x y. (x, y)) f e) (signed_pairs-two a b l)
signed_pairs-Perm l m (Permᴰ.trans {l₂} p q) =
    Permᴰ.trans (signed_pairs-Perm l l₂ p) (signed_pairs-Perm l₂ m q)

abbrev rest_of : Params → Params
rest_of [] = []
rest_of (e ∷ l) = l

abbrev first_value : Params → String
first_value [] = ""
first_value (e ∷ l) = e.1

module _ (sha1_hex : String → String) (c : Client) where
  -- The signature does not depend on the order in which Go goes through the map of the parameters.
  pub sign-Perm : (l m : Params) → Permᴰ l m → sign sha1_hex c l ≡ sign sha1_hex c m
  unfolding sign
  sign-Perm l m p =
      ap (λ pairs. sha1_hex (String.◌++◌ (join_clauses pairs "&") c.api_secret))
        (sort_strings-Perm (signed_pairs l) (signed_pairs m) (signed_pairs-Perm l m p))

-- The text that Cloudinary's scheme signs: the parameters of the upload in the order of their names, but
-- the key and the file, and then the secret.
abbrev pub to_sign : Client → String → String
to_sign c timestamp =
    let time = String.◌++◌ "timestamp" (String.◌++◌ "=" timestamp) in
    let fields =
      if c.folder == ""
      then time
      else String.◌++◌ (String.◌++◌ "folder" (String.◌++◌ "=" c.folder)) (String.◌++◌ "&" time) in
    String.◌++◌ fields c.api_secret

folder_first :
    (s t : String)
    → sort_strings (String.◌++◌ "timestamp" s ∷ String.◌++◌ "folder" t ∷ [])
      ≡ String.◌++◌ "folder" t ∷ String.◌++◌ "timestamp" s ∷ []
unfolding sort_strings
folder_first s t = rw (cons-append "t" "imestamp" s, cons-append "f" "older" t) refl

pairs_of_field :
    (k v : String) (l : Params)
    → excluded k ≡ false
    → (v == "") ≡ false
    → signed_pairs ((k, v) ∷ l) ≡ String.◌++◌ k (String.◌++◌ "=" v) ∷ signed_pairs l
unfolding signed_pairs
pairs_of_field k v l in_it set = rw (in_it, set) refl

pairs_of_excluded :
    (k v : String) (l : Params) → excluded k ≡ true → signed_pairs ((k, v) ∷ l) ≡ signed_pairs l
unfolding signed_pairs
pairs_of_excluded k v l out = rw out refl

no_pairs : signed_pairs [] ≡ []
unfolding signed_pairs
no_pairs = refl

module _ (sha1_hex : String → String) (c : Client) (timestamp : String)
    (set : (timestamp == "") ≡ false) where
  abbrev time : String
  time = String.◌++◌ "timestamp" (String.◌++◌ "=" timestamp)

  signed_pairs-time :
      (l : Params)
      → signed_pairs (("timestamp", timestamp) ∷ ("api_key", c.api_key) ∷ l) ≡ time ∷ signed_pairs l
  signed_pairs-time l =
      pairs_of_field "timestamp" timestamp (("api_key", c.api_key) ∷ l) refl set
      ∙ ap (λ pairs. time ∷ pairs) (pairs_of_excluded "api_key" c.api_key l refl)

  sign-upload_params : sign sha1_hex c (upload_params c timestamp) ≡ sha1_hex (to_sign c timestamp)
  unfolding sign upload_params
  sign-upload_params =
      let signed : List String → String =
        λ pairs. sha1_hex (String.◌++◌ (join_clauses pairs "&") c.api_secret) in
      elim (Bool-cases (c.folder == "")) [
        | inl e ↦ rw e (
            ap (λ pairs. signed (sort_strings pairs))
              (signed_pairs-time [] ∙ ap (λ pairs. time ∷ pairs) no_pairs))
        | inr e ↦
            let folder = String.◌++◌ "folder" (String.◌++◌ "=" c.folder) in
            rw e (
              ap (λ pairs. signed (sort_strings pairs))
                (signed_pairs-time (("folder", c.folder) ∷ [])
                  ∙ ap (λ pairs. time ∷ pairs)
                      (pairs_of_field "folder" c.folder [] refl e
                        ∙ ap (λ pairs. folder ∷ pairs) no_pairs))
              ∙ ap signed (folder_first (String.◌++◌ "=" timestamp) (String.◌++◌ "=" c.folder)))
      ]

module _ (sha1_hex : String → String) (c : Client) where
  -- The signature of an upload is the SHA-1 of its time, and of its folder before it if there is one,
  -- followed by the secret; and signing the other fields of the form again, in any order and with the
  -- field of the file, gives the same, if the time is not the empty text.
  pub sign-form :
      (timestamp file signature : String) (rest form : Params)
      → (timestamp == "") ≡ false
      → signed_params sha1_hex c timestamp ≡ ("signature", signature) ∷ rest
      → Permᴰ form (("file", file) ∷ rest)
      → (signature ≡ sha1_hex (to_sign c timestamp)) × (sign sha1_hex c form ≡ signature)
  unfolding signed_params sign
  sign-form timestamp file signature rest form set h p = (
    sym (ap first_value h) ∙ sign-upload_params sha1_hex c timestamp set,
    sign-Perm sha1_hex c form (("file", file) ∷ rest) p
        ∙ ap (sign sha1_hex c) (sym (ap rest_of h))
        ∙ ap first_value h,
  )
