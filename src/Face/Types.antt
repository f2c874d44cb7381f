-- ===== src/Face/Types.antt =====
-- internal/faceclient/client.go: the results of the operations, and what the client takes from
-- encoding/json and net/http. A float64 or float32 is the number of its bits.
use go_attend.Common.{ℕ, String, Option, List, Bool, Result}
use go_attend.Common.Int.{ℤ}
pub use go_attend.Common.Web.{Response}

pub record FaceQuality : Type 0 where
  pub score : ℕ
  pub blur : ℕ
  pub pose_yaw : ℕ
  pub pose_pitch : ℕ
  pub pose_roll : ℕ
  pub face_size : ℤ
  pub is_frontal : Bool

pub record EmbedResult : Type 0 where
  pub embedding : List ℕ
  pub score : ℕ
  pub faces_detected : ℤ
  pub quality : Option FaceQuality

pub record CompareResult : Type 0 where
  pub similarity : ℕ
  pub match : Bool
  pub threshold : ℕ
  pub quality1 : Option FaceQuality
  pub quality2 : Option FaceQuality

pub record EnrollResult : Type 0 where
  pub user_id : String
  pub success : Bool
  pub quality : Option FaceQuality
  pub message : String

pub record SearchMatch : Type 0 where
  pub user_id : String
  pub similarity : ℕ
  pub name : String

pub record SearchResult : Type 0 where
  pub matches : List SearchMatch
  pub faces_detected : ℤ
  pub quality : Option FaceQuality

pub record VerifyResult : Type 0 where
  pub user_id : String
  pub verified : Bool
  pub similarity : ℕ
  pub threshold : ℕ
  pub quality : Option FaceQuality

-- The value of a map[string]interface{}, of which nil is `none`.
abbrev pub Anything : Type 0 → Type 0
Anything Any = Option (List (String × Any))

pub record LivenessResult (Any : Type 0) : Type 0 where
  pub is_live : Bool
  pub confidence : ℕ
  pub checks : Anything Any

-- A value of the map that a request is made from.
pub data Value (Any : Type 0) : Type 0 where
  text : String → Value Any
  number : ℤ → Value Any
  float : ℕ → Value Any
  entries : List (String × Any) → Value Any

pub record Request : Type 0 where
  pub method : String
  pub url : String
  pub content_type : Option String
  pub body : String

-- encoding/json and net/http over a state of the network: json.Marshal, the error of
-- http.NewRequestWithContext, the Do of the HTTP client, and the decoder into each struct.
pub record Net : Type 1 where
  pub World : Type 0
  pub Any : Type 0
  pub mock_check : Any
  pub marshal : List (String × Value Any) → Result String
  pub bad_request : Request → Option String
  pub do_request : World → Request → World × Result Response
  pub decode_embed : String → Result EmbedResult
  pub decode_compare : String → Result CompareResult
  pub decode_enroll : String → Result EnrollResult
  pub decode_search : String → Result SearchResult
  pub decode_verify : String → Result VerifyResult
  pub decode_liveness : String → Result (LivenessResult Any)
