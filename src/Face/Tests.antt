-- ===== src/Face/Tests.antt =====
-- internal/faceclient/client.go: the client against a concrete service.
use go_attend.Common.{
  ℕ, suc, ok_injective, subst, ◌≤◌, ◌≡◌, refl, true, false, none, [], ◌∷◌, ok, err, arith,
}
use go_attend.Common.Int.{pos}
use go_attend.Face.Types.{EmbedResult, Response, Net}
use go_attend.Face.Mocks.{mock_compare, mock_enroll, mock_search, mock_verify}
use go_attend.Face.Client.{
  Client, new, embed_with_score, embed, health, enroll, search, verify, liveness,
}
use go_attend.Face.Outcome.{Embedded, Each, embed_with_score-Embedded, Broken, Broken-fails}

client : Unit {0}
unfolding embed_with_score embed health enroll search verify liveness
client = tt

abbrev one_face : EmbedResult
one_face = record { embedding = 7 ∷ []; score = 9; faces_detected = pos 1; quality = none }

abbrev status : ℕ → Response
status code = record { status_code = code; status = "line"; body = "{}" }

-- A service that counts its requests and answers Each with one status and one face.
abbrev answers : ℕ → Net
answers code = record {
  World = ℕ;
  Any = Unit;
  mock_check = tt;
  marshal = λ payload. ok "{}";
  bad_request = λ request. none;
  do_request = λ w request. (suc w, ok (status code));
  decode_embed = λ body. ok one_face;
  decode_compare = λ body. ok mock_compare;
  decode_enroll = λ body. ok (mock_enroll "u");
  decode_search = λ body. ok mock_search;
  decode_verify = λ body. ok (mock_verify "u");
  decode_liveness = λ body. err "bad";
}

abbrev service : Client
service = new "http://face" false

abbrev skipped : Client
skipped = new "http://face" true

tests :
    (embed_with_score (answers 200) service 0 "img" ≡ (1, ok one_face))
    × (embed_with_score (answers 200) service 0 "" ≡ (0, err "image url required"))
    × (embed (answers 200) service 4 "img" ≡ (5, ok (7 ∷ [])))
    × (health (answers 503) service 0 ≡ (1, err "face service unhealthy: line"))
    × (liveness (answers 200) service 0 "img" ≡ (1, err "failed to decode response: bad"))
unfolding client
tests = (refl, refl, refl, refl, refl)

embed_with_score-Embedded_example : Embedded (answers 200) service 0 1 "img" one_face
unfolding client
embed_with_score-Embedded_example =
    embed_with_score-Embedded (answers 200) service 0 1 "img" one_face refl refl

out_of_order : Broken (answers 503) service
out_of_order w request resp e =
    subst (λ (x : Response). 300 ≤ x.status_code) (ok_injective e) (omega arith)

Broken-fails_example :
    Each (answers 503) service (λ _ good. good ≡ false) 3 "img" "u" "n" none (pos 5) 0
Broken-fails_example =
    Broken-fails (answers 503) service 3 "img" "u" "n" none (pos 5) 0 refl out_of_order
