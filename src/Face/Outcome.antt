-- ===== src/Face/Outcome.antt =====
-- internal/faceclient/client.go: when the operations of the client succeed.
use go_attend.Common.{
  ℕ, ◌≤◌, ◌<◌, String, ◌≡◌, refl, ◌≢◌, ap, ap₂, subst, nat_eq, ok_injective, Bool, true, false,
  bind-ok, Bool-cases, inl, inr, Option-cases, List, [], ◌∷◌, length, ◌==◌, eq_iff, le→leb, Result,
  ok, err, ◌>>=◌, is_ok, if_induction, arith,
}
use go_attend.Common.Int.{ℤ}
use go_attend.Face.Types.{EmbedResult, Value, text, Anything, Request, Response, Net}
use go_attend.Face.Client.{
  Client, answered, decoded, some_face, healthy, post_request, post, embed_with_score, embed,
  compare, health_request, health, enroll, search, verify, liveness,
}

answered-ok :
    (a : Result Response) {body : String}
    → answered a ≡ ok body
    → (resp : Response) × (a ≡ ok resp) × (resp.status_code < 300) × (resp.body ≡ body)
unfolding answered
answered-ok (err e) h = cc
answered-ok (ok resp) h = (resp, refl, ground arith, ground arith)

some_face-ok : (out r : EmbedResult) → some_face out ≡ ok r → (out ≡ r) × (0 < length r.embedding)
unfolding some_face
some_face-ok out r h = elim (Bool-cases (nat_eq (length out.embedding) 0)) [
  | inl e ↦ cc (rw e at h)
  | inr e ↦
      let same = ok_injective (rw e at h) in
      (same, subst (λ x. 0 < length x.embedding) same (ground arith))
]

not_both : {b : Bool} → b ≡ true → b ≡ false → ⊥
not_both t f = cc

decoded-ok : {T : Type 0} (r : Result T) {t : T} → decoded r ≡ ok t → r ≡ ok t
decoded-ok (err e) h = cc
decoded-ok (ok out) h = h

module _ (net : Net) (c : Client) where
  post-ok :
      (w w' : net.World) (path : String) (payload : List (String × Value net.Any)) (body : String)
      → post net c w path payload ≡ (w', ok body)
      → (resp : Response) × (net.do_request w (post_request net c path payload) ≡ (w', ok resp))
        × (resp.status_code < 300)
        × (resp.body ≡ body)
  unfolding post
  post-ok w w' path payload body h =
      elim (Option-cases (net.bad_request (post_request net c path payload))) [
        | inl e ↦
            let answer = net.do_request w (post_request net c path payload) in
            let both = rw e at h in
            let (resp, got, good, same) = answered-ok answer.1 (ap (λ p. p.1) both) in
            (resp, ap₂ (λ x y. (x, y)) (ap (λ p. p.0) both) got, good, same)
        | inr (reason, e) ↦ cc (rw e at h)
      ]

  -- A result of EmbedWithScore that the service has given.
  pub record Embedded (w w' : net.World) (image_url : String) (r : EmbedResult) : Type 0 where
    pub asked : image_url ≢ ""
    pub resp : Response
    pub answer :
        net.do_request w (post_request net c "/embed" (("image_url", text image_url) ∷ []))
        ≡ (w', ok resp)
    pub good : resp.status_code < 300
    pub read : net.decode_embed resp.body ≡ ok r
    pub face : 0 < length r.embedding

  -- Unless the service is skipped, EmbedWithScore succeeds only with an image address, on one POST to
  -- /embed that was answered with a status below 300, and with what the body says, which has a
  -- non-empty embedding.
  pub embed_with_score-Embedded :
      (w w' : net.World) (image_url : String) (r : EmbedResult)
      → c.skip ≡ false
      → embed_with_score net c w image_url ≡ (w', ok r)
      → Embedded w w' image_url r
  unfolding embed_with_score
  embed_with_score-Embedded w w' image_url r on h = elim (Bool-cases (image_url == "")) [
    | inl e ↦ cc (rw (on, e) at h)
    | inr e ↦
        let payload = ("image_url", text image_url) ∷ [] in
        let both = rw (on, e) at h in
        let (body, sent, rest) =
          bind-ok (post net c w "/embed" payload).1
            (λ body. decoded (net.decode_embed body) >>= some_face) (ap (λ p. p.1) both) in
        let (resp, got, good, same) =
          post-ok w w' "/embed" payload body (ap₂ (λ x y. (x, y)) (ap (λ p. p.0) both) sent) in
        let (out, parsed, some_of) = bind-ok (decoded (net.decode_embed body)) some_face rest in
        let (out_r, face) = some_face-ok out r some_of in
        record {
          asked = λ empty. not_both ((eq_iff image_url "").1 empty) e;
          resp = resp;
          answer = got;
          good = good;
          read = rw (same, decoded-ok (net.decode_embed body) parsed) (ap (λ x. ok x) out_r);
          face = face;
        }
  ]

  -- The seven results that the operations give, and the state that each leaves.
  abbrev pub Untouched : net.World → net.World → Bool → Type 0
  Untouched w w' good = (w' ≡ w) × (good ≡ true)

  abbrev pub Each :
      (net.World → Bool → Type 0)
      → net.World
      → String
      → String
      → String
      → Anything net.Any
      → ℤ
      → ℕ
      → Type 0
  Each P w url other name metadata top_k threshold =
      (let a = embed net c w url in P a.0 (is_ok a.1))
      × (let a = compare net c w url other in P a.0 (is_ok a.1))
      × (let a = health net c w in P a.0 (is_ok a.1))
      × (let a = enroll net c w other url name metadata in P a.0 (is_ok a.1))
      × (let a = search net c w url top_k threshold in P a.0 (is_ok a.1))
      × (let a = verify net c w other url in P a.0 (is_ok a.1))
      × (let a = liveness net c w url in P a.0 (is_ok a.1))

  -- A skipped face service is never asked, and every operation of the client succeeds.
  pub skip-Untouched :
      (w : net.World) (url other name : String) (metadata : Anything net.Any) (top_k : ℤ)
      (threshold : ℕ)
      → c.skip ≡ true
      → Each (Untouched w) w url other name metadata top_k threshold
  unfolding embed compare health enroll search verify liveness
  skip-Untouched w url other name metadata top_k threshold on = rw on (
    (refl, refl),
    (refl, refl),
    (refl, refl),
    (refl, refl),
    (refl, refl),
    (refl, refl),
    (refl, refl),
  )

  -- Every answer is an error of the transport or has a status of 300 or more.
  abbrev pub Broken : Type 0
  Broken =
      (w : net.World) (request : Request) (resp : Response)
      → (net.do_request w request).1 ≡ ok resp
      → 300 ≤ resp.status_code

  answered-Broken :
      (a : Result Response)
      → ((resp : Response) → a ≡ ok resp → 300 ≤ resp.status_code)
      → (is_ok (answered a) ≡ false) × (is_ok (healthy a) ≡ false)
  unfolding answered healthy
  answered-Broken (err e) h = (refl, refl)
  answered-Broken (ok resp) h = rw (le→leb 300 resp.status_code (h resp refl)) (refl, refl)

  fails-bind :
      {A B : Type 0} (r : Result A) (f : A → Result B) → is_ok r ≡ false → is_ok (r >>= f) ≡ false
  fails-bind (err e) f h = refl
  fails-bind (ok a) f h = cc

  post-Broken :
      {A : Type 0} (w : net.World) (path : String) (payload : List (String × Value net.Any))
      (f : String → Result A)
      → Broken
      → is_ok ((post net c w path payload).1 >>= f) ≡ false
  unfolding post
  post-Broken w path payload f broken =
      let request = post_request net c path payload in
      elim (Option-cases (net.bad_request request)) [
        | inl e ↦ rw e (
            fails-bind (answered (net.do_request w request).1) f
              (answered-Broken (net.do_request w request).1 (broken w request)).0)
        | inr (reason, e) ↦ rw e refl
      ]

  embed_with_score-Broken :
      (w : net.World) (url : String)
      → c.skip ≡ false
      → Broken
      → is_ok (embed_with_score net c w url).1 ≡ false
  unfolding embed_with_score
  embed_with_score-Broken w url on broken = rw on (
      if_induction (λ (a : net.World × Result EmbedResult). is_ok a.1 ≡ false) (url == "") _ _
        (λ _. refl) (λ _. post-Broken w _ _ _ broken))

  embed-Broken :
      (w : net.World) (url : String) → c.skip ≡ false → Broken → is_ok (embed net c w url).1 ≡ false
  unfolding embed
  embed-Broken w url on broken =
      fails-bind (embed_with_score net c w url).1 (λ result. ok result.embedding)
        (embed_with_score-Broken w url on broken)

  health-Broken : (w : net.World) → c.skip ≡ false → Broken → is_ok (health net c w).1 ≡ false
  unfolding health
  health-Broken w on broken = elim (Option-cases (net.bad_request (health_request c))) [
    | inl e ↦
        rw (on, e)
          (answered-Broken (net.do_request w (health_request c)).1 (broken w (health_request c))).1
    | inr (reason, e) ↦ rw (on, e) refl
  ]

  -- While the face service is down or answers with errors, every operation reports an error.
  pub Broken-fails :
      (w : net.World) (url other name : String) (metadata : Anything net.Any) (top_k : ℤ)
      (threshold : ℕ)
      → c.skip ≡ false
      → Broken
      → Each (λ _ good. good ≡ false) w url other name metadata top_k threshold
  unfolding compare enroll search verify liveness
  Broken-fails w url other name metadata top_k threshold on broken = (
    embed-Broken w url on broken,
    rw on (post-Broken w _ _ _ broken),
    health-Broken w on broken,
    rw on (post-Broken w _ _ _ broken),
    rw on (post-Broken w _ _ _ broken),
    rw on (post-Broken w _ _ _ broken),
    rw on (post-Broken w _ _ _ broken),
  )
