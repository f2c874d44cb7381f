-- ===== src/Face/Client.antt =====
-- internal/faceclient/client.go: the operations of Client, over the state of the network. The struct
-- `out` that an answer is decoded into has the fields of the result that is made of it.
use Prim.Native.String
use go_attend.Common.{
  ℕ, String, Option, none, some, List, [], ◌∷◌, ◌++◌, Bool, true, if◌then◌else◌, ◌==◌, ◌&&◌, ltb,
  leb, nat_eq, length, Result, Done, ok, err, ◌>>=◌,
}
use go_attend.Common.Int.{ℤ}
use go_attend.Face.Mocks.{mock_embed, mock_compare, mock_enroll, mock_search, mock_verify}
use go_attend.Face.Types.{
  EmbedResult, CompareResult, EnrollResult, SearchResult, VerifyResult, LivenessResult, Anything,
  Value, text, number, float, entries, Request, Response, Net,
}

-- `HTTP` is the network that each operation is given.
pub record Client : Type 0 where
  pub base_url : String
  pub skip : Bool

abbrev pub new : String → Bool → Client
new base_url skip = record { base_url = base_url; skip = skip }

-- The test `> 0` on a float64: neither a zero, a negative number nor a NaN.
abbrev pub positive : ℕ → Bool
positive bits = ltb 0 bits && leb bits 9218868437227405312

-- What every POST does with the answer: an error of the transport, a status of 300 or more, or the
-- body.
unfoldable pub answered : Result Response → Result String
answered (err e) = err (String.◌++◌ "face service request failed: " e)
answered (ok resp) =
    if leb 300 resp.status_code
    then err
        (String.◌++◌ "face service error " (String.◌++◌ resp.status (String.◌++◌ ": " resp.body)))
    else ok resp.body

abbrev pub decoded : {T : Type 0} → Result T → Result T
decoded (err e) = err (String.◌++◌ "failed to decode response: " e)
decoded (ok out) = ok out

unfoldable pub some_face : EmbedResult → Result EmbedResult
some_face out = if nat_eq (length out.embedding) 0 then err "no face detected in image" else ok out

-- The answer to GET /health.
unfoldable pub healthy : Result Response → Done
healthy (err e) = err (String.◌++◌ "face service unavailable: " e)
healthy (ok resp) =
    if leb 300 resp.status_code
    then err (String.◌++◌ "face service unhealthy: " resp.status)
    else ok tt

abbrev pub health_request : Client → Request
health_request c = record {
  method = "GET";
  url = String.◌++◌ c.base_url "/health";
  content_type = none;
  body = "";
}

module _ (net : Net) where
  abbrev pub Payload : Type 0
  Payload = List (String × Value net.Any)

  -- The body that json.Marshal gives; its error is ignored and leaves the body empty.
  abbrev pub body_of : Payload → String
  body_of payload = elim (net.marshal payload) [ err _ ↦ "" | ok body ↦ body ]

  abbrev pub post_request : Client → String → Payload → Request
  post_request c path payload = record {
    method = "POST";
    url = String.◌++◌ c.base_url path;
    content_type = some "application/json";
    body = body_of payload;
  }

  -- The end of a POST, given the error of http.NewRequestWithContext.
  unfoldable pub exchange : net.World → Request → Option String → net.World × Result String
  unfolding answered
  exchange w request (some e) = (w, err e)
  exchange w request none = let answer = net.do_request w request in (answer.0, answered answer.1)

  -- The part that the six POST operations have in common.
  unfoldable pub post : Client → net.World → String → Payload → net.World × Result String
  unfolding exchange
  post c w path payload =
      let request = post_request c path payload in exchange w request (net.bad_request request)

  unfoldable pub embed_with_score : Client → net.World → String → net.World × Result EmbedResult
  unfolding post some_face
  embed_with_score c w image_url =
      if c.skip
      then (w, ok mock_embed)
      else (if image_url == ""
          then (w, err "image url required")
          else (let answer = post c w "/embed" (("image_url", text image_url) ∷ []) in
              (answer.0, answer.1 >>= λ body. (decoded (net.decode_embed body) >>= some_face))))

  unfoldable pub embed : Client → net.World → String → net.World × Result (List ℕ)
  unfolding embed_with_score
  embed c w image_url =
      let answer = embed_with_score c w image_url in
      (answer.0, answer.1 >>= λ result. ok result.embedding)

  unfoldable pub compare : Client → net.World → String → String → net.World × Result CompareResult
  unfolding post
  compare c w image_url1 image_url2 =
      if c.skip
      then (w, ok mock_compare)
      else (let answer =
            post c w "/compare"
              (("image_url_1", text image_url1) ∷ ("image_url_2", text image_url2) ∷ []) in
          (answer.0, answer.1 >>= λ body. decoded (net.decode_compare body)))

  -- The end of a GET of /health, given the error of http.NewRequestWithContext.
  unfoldable pub exchange_health : net.World → Request → Option String → net.World × Done
  unfolding healthy
  exchange_health w request (some e) = (w, err e)
  exchange_health w request none =
      let answer = net.do_request w request in (answer.0, healthy answer.1)

  unfoldable pub health : Client → net.World → net.World × Done
  unfolding exchange_health
  health c w =
      if c.skip
      then (w, ok tt)
      else exchange_health w (health_request c) (net.bad_request (health_request c))

  abbrev pub named : String → Payload
  named name = if name == "" then [] else (("name", text name) ∷ [])

  abbrev pub with_metadata : Anything net.Any → Payload
  with_metadata none = []
  with_metadata (some metadata) = ("metadata", entries metadata) ∷ []

  unfoldable pub enroll :
      Client
      → net.World
      → String
      → String
      → String
      → Anything net.Any
      → net.World × Result EnrollResult
  unfolding post
  enroll c w user_id image_url name metadata =
      if c.skip
      then (w, ok (mock_enroll user_id))
      else (let answer = post c w "/enroll" (
            ("user_id", text user_id)
            ∷ ("image_url", text image_url)
            ∷ (named name ++ with_metadata metadata)) in
          (answer.0, answer.1 >>= λ body. decoded (net.decode_enroll body)))

  unfoldable pub search : Client → net.World → String → ℤ → ℕ → net.World × Result SearchResult
  unfolding post
  search c w image_url top_k threshold =
      if c.skip
      then (w, ok mock_search)
      else (let answer = post c w "/search" (
            ("image_url", text image_url)
            ∷ ("top_k", number top_k)
            ∷ (if positive threshold then ("threshold", float threshold) ∷ [] else [])) in
          (answer.0, answer.1 >>= λ body. decoded (net.decode_search body)))

  unfoldable pub verify : Client → net.World → String → String → net.World × Result VerifyResult
  unfolding post
  verify c w user_id image_url =
      if c.skip
      then (w, ok (mock_verify user_id))
      else (let answer =
            post c w "/verify" (("user_id", text user_id) ∷ ("image_url", text image_url) ∷ []) in
          (answer.0, answer.1 >>= λ body. decoded (net.decode_verify body)))

  unfoldable pub liveness :
      Client → net.World → String → net.World × Result (LivenessResult net.Any)
  unfolding post
  liveness c w image_url =
      if c.skip
      then (
        w,
        ok (record {
          is_live = true;
          confidence = 4605831338911806259;
          checks = some (("mock", net.mock_check) ∷ []);
        }),
      )
      else (let answer = post c w "/liveness" (("image_url", text image_url) ∷ []) in
          (answer.0, answer.1 >>= λ body. decoded (net.decode_liveness body)))
