-- ===== src/Simple/Clients.antt =====
-- newGoAttend/backend/internal/faceclient/client.go and internal/cloudinary/client.go.
use Prim.Native.String
use go_attend.Common.{
  ℕ, String, Bool, Option, none, some, [], ◌∷◌, if◌then◌else◌, ◌==◌, nat_eq, Result, ok, err, ◌>>=◌,
}
use go_attend.Attendance.Query.{itoa}
use go_attend.Common.Web.{Response, FormFile, Form, Web}

pub record FaceClient : Type 0 where
  pub base_url : String

pub record RegisterResult : Type 0 where
  pub status : String
  pub student_id : String

-- The distance is the number of the bits of a float64.
pub record RecognizeResult : Type 0 where
  pub matched : Bool
  pub student_id : String
  pub distance : ℕ

pub record CloudClient : Type 0 where
  pub cloud_name : String
  pub api_key : String
  pub api_secret : String
  pub upload_url : String

pub record UploadResult : Type 0 where
  pub secure_url : String
  pub public_id : String

-- What the decoder of encoding/json makes of an answer. The face client ignores its error, and has
-- what the decoder has left in the struct.
pub record Decoders : Type 0 where
  pub register : String → RegisterResult
  pub recognize : String → RecognizeResult
  pub upload : String → Result UploadResult

-- The parts of a URL that `New` of the Cloudinary client reads.
pub record Url : Type 0 where
  pub username : String
  pub password : String
  pub host : String

unfoldable pub new_cloud : (String → Result Url) → String → Result CloudClient
new_cloud parse_url cloudinary_url =
    if cloudinary_url == ""
    then err "CLOUDINARY_URL is empty"
    else (elim (parse_url cloudinary_url) [
      | err e ↦ err (String.◌++◌ "parse cloudinary url: " e)
      | ok u ↦ ok (record {
        cloud_name = u.host;
        api_key = u.username;
        api_secret = u.password;
        upload_url =
            String.◌++◌ "https://api.cloudinary.com/v1_1/" (String.◌++◌ u.host "/image/upload");
      })
    ])

-- What the three operations do with the answer to a POST: an answer other than 200 is an error.
unfoldable pub body_of : String → String → Result Response → Result String
unfolding itoa
body_of failed refused (err e) = err (String.◌++◌ failed e)
body_of failed refused (ok resp) =
    if nat_eq resp.status_code 200
    then ok resp.body
    else err
        (String.◌++◌ refused (String.◌++◌ (itoa resp.status_code) (String.◌++◌ ": " resp.body)))

abbrev pub decoded_upload : Result UploadResult → Result UploadResult
decoded_upload (err e) = err (String.◌++◌ "decode cloudinary response: " e)
decoded_upload (ok result) = ok result

abbrev pub photo : String → String → String → FormFile
photo field filename content = record { field = field; filename = filename; content = content }

module _ (web : Web) (decode : Decoders) where
  -- The form is sent unless its file could not be written.
  unfoldable pub exchange :
      web.World → String → String → String → Form → Option String → web.World × Result String
  unfolding body_of
  exchange w failed refused url form (some e) = (w, err e)
  exchange w failed refused url form none =
      let answer = web.post_form w url form in (answer.0, body_of failed refused answer.1)

  unfoldable pub register :
      FaceClient → web.World → String → String → String → web.World × Result RegisterResult
  unfolding exchange
  register c w student_id content filename =
      let file = photo "photo" filename content in
      let answer =
        exchange w "face service register: " "face service error "
          (String.◌++◌ c.base_url "/register")
          (record { fields = ("student_id", student_id) ∷ []; file = some file })
          (web.bad_file file) in
      (answer.0, answer.1 >>= λ body. ok (decode.register body))

  unfoldable pub recognize :
      FaceClient → web.World → String → String → web.World × Result RecognizeResult
  unfolding exchange
  recognize c w content filename =
      let file = photo "photo" filename content in
      let answer =
        exchange w "face service recognize: " "face service error "
          (String.◌++◌ c.base_url "/recognize") (record { fields = []; file = some file })
          (web.bad_file file) in
      (answer.0, answer.1 >>= λ body. ok (decode.recognize body))

  unfoldable pub upload :
      CloudClient → web.World → String → String → String → web.World × Result UploadResult
  unfolding exchange
  upload c w content filename folder =
      let file = photo "file" filename content in
      let answer =
        exchange w "cloudinary upload: " "cloudinary error " c.upload_url
          (record {
            fields =
                ("upload_preset", "goattend")
                ∷ (if folder == "" then [] else (("folder", folder) ∷ []));
            file = some file;
          })
          (web.bad_file file) in
      (answer.0, answer.1 >>= λ body. decoded_upload (decode.upload body))
