-- ===== src/Cloudinary.antt =====
-- internal/cloudinary/client.go: the parameters of an upload and their signature. SHA-1 in hexadecimal is
-- a parameter, and so is the order in which Go goes through a map: the map is the list of its entries.
pub mod Order
pub mod Signature
pub mod Upload
mod Tests
use Prim.Native.Char.{code}
use Prim.Native.String
use go_attend.Common.{
  String, Bool, true, false, not, ◌&&◌, ◌||◌, List, [], ◌∷◌, ◌++◌, if◌then◌else◌, ◌==◌, ltb, nat_eq,
}
use go_attend.Attendance.Query.{join_loop, join_clauses}

pub record Client : Type 0 where
  pub cloud_name : String
  pub api_key : String
  pub api_secret : String
  pub folder : String

abbrev pub Params : Type 0
Params = List (String × String)

-- The order of Go strings; UTF-8 keeps the order of the code points.
unfoldable pub le_text : String → String → Bool
le_text String.[] t = true
le_text (String.◌∷◌ c s) String.[] = false
le_text (String.◌∷◌ c s) (String.◌∷◌ d t) =
    let rest = le_text s t in if nat_eq (code c) (code d) then rest else ltb (code c) (code d)

unfoldable pub insert_text : String → List String → List String
unfolding le_text
insert_text x [] = x ∷ []
insert_text x (y ∷ ys) = let rest = insert_text x ys in if le_text x y then x ∷ y ∷ ys else y ∷ rest

-- sort.Strings
unfoldable pub sort_strings : List String → List String
unfolding insert_text
sort_strings [] = []
sort_strings (x ∷ xs) = insert_text x (sort_strings xs)

abbrev pub excluded : String → Bool
excluded k = k == "api_key" || k == "file" || k == "resource_type"

-- The loop over the map.
unfoldable pub signed_pairs : Params → List String
signed_pairs [] = []
signed_pairs ((k, v) ∷ params) =
    let rest = signed_pairs params in
    if not (excluded k) && not (v == "") then String.◌++◌ k (String.◌++◌ "=" v) ∷ rest else rest

-- Client.sign, where `sha1_hex` is the hexadecimal SHA-1 of a text.
unfoldable pub sign : (String → String) → Client → Params → String
unfolding sort_strings signed_pairs join_clauses
sign sha1_hex c params =
    sha1_hex (String.◌++◌ (join_clauses (sort_strings (signed_pairs params)) "&") c.api_secret)

-- The parameters of an upload at a time, before the signature is added and with it.
unfoldable pub upload_params : Client → String → Params
upload_params c timestamp =
    ("timestamp", timestamp)
    ∷ ("api_key", c.api_key)
    ∷ (if c.folder == "" then [] else ("folder", c.folder) ∷ [])

unfoldable pub signed_params : (String → String) → Client → String → Params
unfolding upload_params sign
signed_params sha1_hex c timestamp =
    ("signature", sign sha1_hex c (upload_params c timestamp)) ∷ upload_params c timestamp
