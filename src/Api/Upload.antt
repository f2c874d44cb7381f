-- ===== src/Api/Upload.antt =====
-- cmd/api/main.go: the handler of POST /v1/upload.
use Prim.Native.Char.{code}
use go_attend.Common.{
  ℕ, String, Bool, true, false, Option, none, some, if◌then◌else◌, nat_eq, Result, ok, err,
}
use go_attend.Common.Web.{Web}
use go_attend.Cloudinary.{Client}
use go_attend.Cloudinary.Upload.{UploadResult, upload_base64, upload_bytes}

-- The answers: an error, or 200 with the secure_url, the public_id, the width, the height and the bytes
-- of the result.
pub data UploadReply : Type 0 where
  failed : ℕ → String → UploadReply
  stored : UploadResult → UploadReply

-- strings.HasPrefix and strings.Contains.
abbrev pub has_prefix : String → String → Bool
has_prefix String.[] s = true
has_prefix (String.◌∷◌ p prefix) String.[] = false
has_prefix (String.◌∷◌ p prefix) (String.◌∷◌ c s) =
    let rest = has_prefix prefix s in if nat_eq (code p) (code c) then rest else false

unfoldable pub contains_text : String → String → Bool
contains_text String.[] part = has_prefix part ""
contains_text (String.◌∷◌ c s) part =
    let later = contains_text s part in if has_prefix part (String.◌∷◌ c s) then true else later

-- What gin gives of the request: the content type, the name and the bytes of the file "file", and the
-- bound JSON body.
pub record UploadRequest : Type 0 where
  pub content_type : String
  pub filename : Result String
  pub content : Result String
  pub body : Result String

module _ (web : Web) (unmarshal : String → Result UploadResult) (sha1_hex : String → String) where
  unfoldable pub upload_reply : web.World × Result UploadResult → web.World × UploadReply
  upload_reply (w, err _) = (w, failed 502 "image upload failed")
  upload_reply (w, ok result) = (w, stored result)

  unfoldable pub from_file :
      Client → web.World → String → Result String → Result String → web.World × UploadReply
  unfolding upload_reply upload_bytes
  from_file c w timestamp (err _) content = (w, failed 400 "file field required")
  from_file c w timestamp (ok filename) (err _) = (w, failed 500 "read file failed")
  from_file c w timestamp (ok filename) (ok content) =
      upload_reply (upload_bytes web unmarshal sha1_hex c w timestamp content filename)

  unfoldable pub from_body : Client → web.World → String → Result String → web.World × UploadReply
  unfolding upload_reply upload_base64
  from_body c w timestamp (err _) = (w, failed 400 "provide {\"data\": \"<base64 data URL>\"}")
  from_body c w timestamp (ok content) =
      upload_reply (upload_base64 web unmarshal sha1_hex c w timestamp content)

  -- `timestamp` is the text of the seconds of time.Now.
  unfoldable pub post_upload :
      Option Client → web.World → String → UploadRequest → web.World × UploadReply
  unfolding from_file from_body contains_text
  post_upload none w timestamp req = (w, failed 503 "image storage not configured")
  post_upload (some c) w timestamp req =
      if contains_text req.content_type "multipart/form-data"
      then from_file c w timestamp req.filename req.content
      else from_body c w timestamp req.body
