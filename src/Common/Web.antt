-- ===== src/Common/Web.antt =====
-- What the clients take from net/http and mime/multipart: forms, answers, and a state of the network.
use mathlib.Core.Option.{Option}
use mathlib.Core.List.{List}
use Prim.Native.Nat.{ℕ}
use Prim.Native.String.{String}
use go_attend.Common.Results.{Result}

-- An answer with a status code, its line, and what can be read of its body.
pub record Response : Type 0 where
  pub status_code : ℕ
  pub status : String
  pub body : String

-- A part of a form made by CreateFormFile.
pub record FormFile : Type 0 where
  pub field : String
  pub filename : String
  pub content : String

-- A multipart form: the fields in their order, and a file.
pub record Form : Type 0 where
  pub fields : List (String × String)
  pub file : Option FormFile

-- The errors of CreateFormFile or io.Copy and of http.NewRequest, and the POST of a form.
pub record Web : Type 1 where
  pub World : Type 0
  pub bad_file : FormFile → Option String
  pub bad_url : String → Option String
  pub post_form : World → String → Form → World × Result Response
