-- ===== src/Face/Mocks.antt =====
-- internal/faceclient/client.go: what the client answers when the face service is skipped.
use go_attend.Common.{String, none, some, [], ◌∷◌, true}
use go_attend.Common.Int.{pos}
use go_attend.Face.Types.{
  FaceQuality, EmbedResult, CompareResult, EnrollResult, SearchMatch, SearchResult, VerifyResult,
}

-- FaceQuality{Score: 0.85, IsFrontal: true}.
abbrev pub mock_quality : FaceQuality
mock_quality = record {
  score = 4605831338911806259;
  blur = 0;
  pose_yaw = 0;
  pose_pitch = 0;
  pose_roll = 0;
  face_size = pos 0;
  is_frontal = true;
}

abbrev pub mock_embed : EmbedResult
mock_embed = record {
  embedding = 1036831949 ∷ 1045220557 ∷ 1050253722 ∷ [];
  score = 4606732058837280358;
  faces_detected = pos 1;
  quality = some (record {
    score = 4605831338911806259;
    blur = 4591870180066957722;
    pose_yaw = 4617315517961601024;
    pose_pitch = 4613937818241073152;
    pose_roll = 4607182418800017408;
    face_size = pos 40000;
    is_frontal = true;
  });
}

abbrev pub mock_compare : CompareResult
mock_compare = record {
  similarity = 4605831338911806259;
  match = true;
  threshold = 4602678819172646912;
  quality1 = none;
  quality2 = none;
}

abbrev pub mock_enroll : String → EnrollResult
mock_enroll user_id = record {
  user_id = user_id;
  success = true;
  quality = some mock_quality;
  message = "Face enrolled (mock)";
}

abbrev pub mock_match : SearchMatch
mock_match = record { user_id = "mock-user"; similarity = 4606461842859638129; name = "Mock User" }

abbrev pub mock_search : SearchResult
mock_search = record {
  matches = mock_match ∷ [];
  faces_detected = pos 1;
  quality = some mock_quality;
}

abbrev pub mock_verify : String → VerifyResult
mock_verify user_id = record {
  user_id = user_id;
  verified = true;
  similarity = 4606461842859638129;
  threshold = 4601778099247172813;
  quality = some mock_quality;
}
