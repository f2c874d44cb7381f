-- ===== src/Cloudinary/Upload.antt =====
-- internal/cloudinary/client.go: the two uploads, over the state of the network.
use Prim.Native.String
use go_attend.Common.{
  ◌<◌, String, ◌≡◌, refl, ap, ap₂, Option, none, some, [], ◌∷◌, ◌++◌, if◌then◌else◌, leb, Result,
  ok, err, ◌>>=◌, bind-ok, arith,
}
use go_attend.Common.Int.{ℤ}
use go_attend.Common.Web.{Response, FormFile, Form, Web}
use go_attend.Attendance.Query.{itoa}
use go_attend.Cloudinary.{Client, signed_params}

pub record UploadResult : Type 0 where
  pub public_id : String
  pub secure_url : String
  pub url : String
  pub format : String
  pub width : ℤ
  pub height : ℤ
  pub bytes : ℤ

-- The answer to the POST: an error of the transport, a status of 300 or more, or the body.
unfoldable pub answered : Result Response → Result String
unfolding itoa
answered (err e) = err (String.◌++◌ "cloudinary: request failed: " e)
answered (ok resp) =
    if leb 300 resp.status_code
    then err (
        String.◌++◌ "cloudinary: upload failed ("
          (String.◌++◌ (itoa resp.status_code) (String.◌++◌ "): " resp.body)))
    else ok resp.body

abbrev pub decoded : Result UploadResult → Result UploadResult
decoded (err e) = err (String.◌++◌ "cloudinary: decode response failed: " e)
decoded (ok result) = ok result

abbrev pub upload_url : Client → String
upload_url c =
    String.◌++◌ "https://api.cloudinary.com/v1_1/" (String.◌++◌ c.cloud_name "/image/upload")

-- json.Unmarshal into the result is a parameter, and so is SHA-1. A form has the parameters in the
-- order of the model's map.
module _ (web : Web) (unmarshal : String → Result UploadResult) (sha1_hex : String → String) where
  -- The end of an upload, given the error of http.NewRequest.
  unfoldable pub exchange : web.World → String → Form → Option String → web.World × Result String
  unfolding answered
  exchange w url form (some e) = (w, err (String.◌++◌ "cloudinary: create request failed: " e))
  exchange w url form none = let answer = web.post_form w url form in (answer.0, answered answer.1)

  -- The part that the two uploads have in common.
  unfoldable pub send_form : Client → web.World → Form → web.World × Result UploadResult
  unfolding exchange
  send_form c w form =
      let answer = exchange w (upload_url c) form (web.bad_url (upload_url c)) in
      (answer.0, answer.1 >>= λ body. decoded (unmarshal body))

  unfoldable pub upload_base64 :
      Client → web.World → String → String → web.World × Result UploadResult
  unfolding send_form signed_params
  upload_base64 c w timestamp content = send_form c w (record {
    fields = signed_params sha1_hex c timestamp ++ ("file", content) ∷ [];
    file = none;
  })

  abbrev pub bytes_form : Client → String → FormFile → Form
  bytes_form c timestamp file = record {
    fields = signed_params sha1_hex c timestamp;
    file = some file;
  }

  -- The end of UploadBytes, given the error of CreateFormFile or io.Copy.
  unfoldable pub after_file :
      Client → web.World → String → FormFile → Option String → web.World × Result UploadResult
  unfolding send_form signed_params
  after_file c w timestamp file (some e) = (w, err e)
  after_file c w timestamp file none = send_form c w (bytes_form c timestamp file)

  unfoldable pub upload_bytes :
      Client → web.World → String → String → String → web.World × Result UploadResult
  unfolding after_file
  upload_bytes c w timestamp content filename =
      let file : FormFile = record { field = "file"; filename = filename; content = content } in
      after_file c w timestamp file (web.bad_file file)

answered-ok :
    (a : Result Response) {body : String}
    → answered a ≡ ok body
    → (resp : Response) × (a ≡ ok resp) × (resp.status_code < 300) × (resp.body ≡ body)
unfolding answered
answered-ok (err e) h = cc
answered-ok (ok resp) h = (resp, refl, ground arith, ground arith)

decoded-ok : (r : Result UploadResult) {t : UploadResult} → decoded r ≡ ok t → r ≡ ok t
decoded-ok (err e) h = cc
decoded-ok (ok t) h = h

module _ (web : Web) (unmarshal : String → Result UploadResult) (sha1_hex : String → String)
    (c : Client) where
  -- A form was sent to the upload address and answered with a status below 300 and the result.
  pub record IsSent (w w' : web.World) (form : Form) (r : UploadResult) : Type 0 where
    pub resp : Response
    pub answer : web.post_form w (upload_url c) form ≡ (w', ok resp)
    pub good : resp.status_code < 300
    pub read : unmarshal resp.body ≡ ok r

  exchange-ok :
      (w w' : web.World) (url : String) (form : Form) (bad : Option String) {body : String}
      → exchange web unmarshal sha1_hex w url form bad ≡ (w', ok body)
      → (resp : Response) × (web.post_form w url form ≡ (w', ok resp))
        × (resp.status_code < 300)
        × (resp.body ≡ body)
  unfolding exchange
  exchange-ok w w' url form (some e) h = cc (ap (λ p. p.1) h)
  exchange-ok w w' url form none h =
      let (resp, got, good, same) = answered-ok (web.post_form w url form).1 (ap (λ p. p.1) h) in
      (resp, ap₂ (λ x y. (x, y)) (ap (λ p. p.0) h) got, good, same)

  pub send_form-IsSent :
      (w w' : web.World) (form : Form) (r : UploadResult)
      → send_form web unmarshal sha1_hex c w form ≡ (w', ok r)
      → IsSent w w' form r
  unfolding send_form
  send_form-IsSent w w' form r h =
      let sent =
        exchange web unmarshal sha1_hex w (upload_url c) form (web.bad_url (upload_url c)) in
      let (body, got, rest) = bind-ok sent.1 (λ body. decoded (unmarshal body)) (ap (λ p. p.1) h) in
      let (resp, answer, good, same) =
        exchange-ok w w' (upload_url c) form (web.bad_url (upload_url c))
          (ap₂ (λ x y. (x, y)) (ap (λ p. p.0) h) got) in
      record {
        resp = resp;
        answer = answer;
        good = good;
        read = rw same (decoded-ok (unmarshal body) rest);
      }
