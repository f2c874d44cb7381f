-- ===== src/Api/Headers.antt =====
-- cmd/api/main.go: corsMiddleware and securityHeaders.
use go_attend.Common.{String, Bool, List, [], ◌∷◌, Option, none, some, ℕ, if◌then◌else◌, ◌==◌}

-- The headers that a middleware sets, and the status that it ends the request with, if it does.
abbrev pub Passed : Type 0
Passed = List (String × String) × Option ℕ

unfoldable pub cors_middleware : String → String → Passed
cors_middleware origin method = (
  ("Access-Control-Allow-Origin", if origin == "" then "*" else origin)
      ∷ ("Access-Control-Allow-Methods", "GET, POST, PUT, DELETE, OPTIONS")
      ∷ ("Access-Control-Allow-Headers", "Origin, Content-Type, Accept, Authorization")
      ∷ ("Access-Control-Allow-Credentials", "true")
      ∷ ("Access-Control-Max-Age", "86400")
      ∷ [],
  if method == "OPTIONS" then some 204 else none,
)

unfoldable pub security_headers : Bool → Passed
security_headers release_mode = (
  ("X-Content-Type-Options", "nosniff")
      ∷ ("X-Frame-Options", "DENY")
      ∷ ("X-XSS-Protection", "1; mode=block")
      ∷ ("Referrer-Policy", "strict-origin-when-cross-origin")
      ∷ (if release_mode
          then (("Strict-Transport-Security", "max-age=31536000; includeSubDomains") ∷ [])
          else []),
  none,
)
