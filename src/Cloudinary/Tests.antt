-- ===== src/Cloudinary/Tests.antt =====
-- internal/cloudinary/client.go: the signature of concrete parameters.
use mathlib.Core.List.Permᴰ
use Prim.Native.String
use go_attend.Common.{String, ◌≡◌, refl, [], ◌∷◌}
use go_attend.Cloudinary.{Client, Params, sign, upload_params, signed_params}
use go_attend.Cloudinary.Signature.{to_sign, sign-form}

cloudinary : Unit {0}
unfolding signed_params
cloudinary = tt

abbrev client : Client
client = record { cloud_name = "cloud"; api_key = "key"; api_secret = "secret"; folder = "faces" }

-- A digest that keeps the text, behind a mark.
abbrev digest : String → String
digest s = String.◌++◌ "#" s

signature : sign digest client (upload_params client "7") ≡ "#folder=faces&timestamp=7secret"
unfolding cloudinary
signature = refl

abbrev shuffled : Params
shuffled = ("folder", "faces") ∷ ("timestamp", "7") ∷ []

sign-form_example :
    ("#folder=faces&timestamp=7secret" ≡ digest (to_sign client "7"))
    × (sign digest client (("file", "data") ∷ upload_params client "7")
        ≡ "#folder=faces&timestamp=7secret")
unfolding cloudinary
sign-form_example =
    sign-form digest client "7" "data" "#folder=faces&timestamp=7secret" (upload_params client "7")
      (("file", "data") ∷ upload_params client "7") refl refl (Permᴰ.refl _)
