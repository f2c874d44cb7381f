-- ===== src/Api/Storage.antt =====
-- cmd/api/main.go: when POST /v1/upload stores an image.
use go_attend.Common.{
  String, ◌≡◌, refl, ap, ap₂, true, false, Bool-cases, inl, inr, Option, none, some, ◌∷◌, [], ◌++◌,
  Result, ok, err,
}
use go_attend.Common.Web.{Form, FormFile, Web}
use go_attend.Cloudinary.{Client, signed_params}
use go_attend.Cloudinary.Upload.{
  UploadResult, bytes_form, after_file, upload_base64, upload_bytes, IsSent, send_form-IsSent,
}
use go_attend.Api.Upload.{
  stored, contains_text, UploadRequest, upload_reply, from_file, from_body, post_upload,
}

same_result : {a b : UploadResult} → stored a ≡ stored b → a ≡ b
same_result e = cc

module _ (web : Web) (unmarshal : String → Result UploadResult) (sha1_hex : String → String)
    (c : Client) (timestamp : String) where
  abbrev pub file_form : String → String → Form
  file_form filename content =
      bytes_form web unmarshal sha1_hex c timestamp
        (record { field = "file"; filename = filename; content = content })

  abbrev pub body_form : String → Form
  body_form content = record {
    fields = signed_params sha1_hex c timestamp ++ ("file", content) ∷ [];
    file = none;
  }

  -- The signed form that the request asks for.
  pub data Asked (req : UploadRequest) : Form → Type 0 where
    by_file :
        (filename content : String)
        → contains_text req.content_type "multipart/form-data" ≡ true
        → req.filename ≡ ok filename
        → req.content ≡ ok content
        → Asked req (file_form filename content)
    by_body :
        (content : String)
        → contains_text req.content_type "multipart/form-data" ≡ false
        → req.body ≡ ok content
        → Asked req (body_form content)

  -- The signed form was sent and answered with the result.
  pub record IsStored (w w' : web.World) (req : UploadRequest) (r : UploadResult) : Type 0 where
    pub form : Form
    pub asked : Asked req form
    pub sent : IsSent web unmarshal sha1_hex c w w' form r

  upload_reply-stored :
      (a : web.World × Result UploadResult) {w' : web.World} {r : UploadResult}
      → upload_reply web unmarshal sha1_hex a ≡ (w', stored r)
      → a ≡ (w', ok r)
  unfolding upload_reply
  upload_reply-stored (w, err _) h = cc (ap (λ p. p.1) h)
  upload_reply-stored (w, ok result) h =
      ap₂ (λ x y. (x, ok y)) (ap (λ p. p.0) h) (same_result (ap (λ p. p.1) h))

  module _ (w w' : web.World) (req : UploadRequest) (r : UploadResult) where
    after_file-sent :
        (file : FormFile) (bad : Option String)
        → after_file web unmarshal sha1_hex c w timestamp file bad ≡ (w', ok r)
        → IsSent web unmarshal sha1_hex c w w'
            (bytes_form web unmarshal sha1_hex c timestamp file)
            r
    unfolding after_file
    after_file-sent file (some e) h = cc (ap (λ p. p.1) h)
    after_file-sent file none h = send_form-IsSent web unmarshal sha1_hex c w w' _ r h

    from_file-IsStored :
        (filename content : Result String)
        → contains_text req.content_type "multipart/form-data" ≡ true
        → req.filename ≡ filename
        → req.content ≡ content
        → from_file web unmarshal sha1_hex c w timestamp filename content ≡ (w', stored r)
        → IsStored w w' req r
    unfolding from_file upload_bytes
    from_file-IsStored (err _) content multi named read h = cc (ap (λ p. p.1) h)
    from_file-IsStored (ok filename) (err _) multi named read h = cc (ap (λ p. p.1) h)
    from_file-IsStored (ok filename) (ok content) multi named read h = record {
      form = file_form filename content;
      asked = by_file filename content multi named read;
      sent = after_file-sent _ _ (upload_reply-stored _ h);
    }

    from_body-IsStored :
        (body : Result String)
        → contains_text req.content_type "multipart/form-data" ≡ false
        → req.body ≡ body
        → from_body web unmarshal sha1_hex c w timestamp body ≡ (w', stored r)
        → IsStored w w' req r
    unfolding from_body upload_base64
    from_body-IsStored (err _) plain read h = cc (ap (λ p. p.1) h)
    from_body-IsStored (ok content) plain read h = record {
      form = body_form content;
      asked = by_body content plain read;
      sent = send_form-IsSent web unmarshal sha1_hex c w w' _ r (upload_reply-stored _ h);
    }

    -- A configured server answers an upload with an image only if the signed form of the file, or of
    -- the data of the JSON body, was sent to the upload address and answered with a status below 300
    -- and that image.
    pub post_upload-IsStored :
        post_upload web unmarshal sha1_hex (some c) w timestamp req ≡ (w', stored r)
        → IsStored w w' req r
    unfolding post_upload
    post_upload-IsStored h =
        elim (Bool-cases (contains_text req.content_type "multipart/form-data")) [
          | inl e ↦ from_file-IsStored req.filename req.content e refl refl (rw e at h)
          | inr e ↦ from_body-IsStored req.body e refl (rw e at h)
        ]
