-- ===== src/Auth/Text.antt =====
-- internal/auth/middleware.go: the functions of package strings that the header is read with.
use Prim.Native.Char.{code}
use go_attend.Common.{
  ℕ, ◌+◌, String, Bool, ◌&&◌, ◌||◌, Option, none, some, if◌then◌else◌, ◌==◌, leb, nat_eq,
}

-- The lower case of an ASCII letter. No character outside ASCII has a lower case among the letters of
-- "bearer ".
abbrev pub lower : ℕ → ℕ
lower c = if leb b'A' c && leb c b'Z' then c + 32 else c

-- The text after a prefix in lower case, if strings.HasPrefix finds it in the lower case of the text.
unfoldable pub strip_fold : String → String → Option String
strip_fold String.[] s = some s
strip_fold (String.◌∷◌ p prefix) String.[] = none
strip_fold (String.◌∷◌ p prefix) (String.◌∷◌ c s) =
    let rest = strip_fold prefix s in if nat_eq (lower (code c)) (code p) then rest else none

-- unicode.IsSpace
abbrev pub is_space : ℕ → Bool
is_space c =
    (leb 9 c && leb c 13)
    || nat_eq c 32
    || nat_eq c 133
    || nat_eq c 160
    || nat_eq c 5760
    || (leb 8192 c && leb c 8202)
    || nat_eq c 8232
    || nat_eq c 8233
    || nat_eq c 8239
    || nat_eq c 8287
    || nat_eq c 12288

unfoldable pub trim_left : String → String
trim_left String.[] = ""
trim_left (String.◌∷◌ c s) =
    let rest = trim_left s in if is_space (code c) then rest else String.◌∷◌ c s

unfoldable pub trim_right : String → String
trim_right String.[] = ""
trim_right (String.◌∷◌ c s) =
    let rest = trim_right s in if rest == "" && is_space (code c) then "" else String.◌∷◌ c rest

unfoldable pub trim_space : String → String
unfolding trim_left trim_right
trim_space s = trim_right (trim_left s)
