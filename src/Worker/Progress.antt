-- ===== src/Worker/Progress.antt =====
-- cmd/worker/main.go: what the worker does to the events.
use go_attend.Common.{
  ℕ, String, ◌≡◌, refl, ◌∙◌, Option, none, some, List, [], ◌∷◌, ◌==◌, eq_iff, Result, ok, err,
  if_induction, All,
}
use go_attend.Queue.{Message}
use go_attend.Attendance.Tables.{Event, Database, Call}
use go_attend.Attendance.Events.{get_event, update_event_status}
use go_attend.Attendance.Integrity.{IsConsistent, Write-IsConsistent, put_status}
use go_attend.Face.Types.{EmbedResult, Net}
use go_attend.Face.Client.{Client, embed_with_score}
use go_attend.Worker.{Turn, after_embed, after_fetch, process, run, State}
use go_attend.Worker.Marks.{
  IsKept, IsKept-refl, IsKept-trans, update-IsKept, update-other, settled, after_embed-settled,
  same_answer,
}

module _ (net : Net) (face : Client) where
  -- What holds without a change and after every status update of the event of a message holds after
  -- one round.
  module _ (P : Database → Type 0) (turn : Turn) (state : State net face) where
    abbrev AfterUpdate : String → Type 0
    AfterUpdate id =
        (status : String) (score : Option ℕ)
        → P (update_event_status turn.mark state.0 id status score).0

    after_embed-steps :
        (id : String)
        → AfterUpdate id
        → (r : Result EmbedResult) → P (after_embed turn state.0 id r)
    unfolding after_embed
    after_embed-steps id change (err e) = change "failed" none
    after_embed-steps id change (ok result) = change "processed" (some result.score)

    after_fetch-steps :
        (id : String)
        → P state.0
        → AfterUpdate id
        → (r : Result Event) → P (after_fetch net face turn state id r).0
    unfolding after_fetch
    after_fetch-steps id same change (err e) = same
    after_fetch-steps id same change (ok evt) =
        after_embed-steps id change (embed_with_score net face state.1 evt.image_url).1

    process-steps :
        (msg : Message)
        → P state.0
        → (msg.type ≡ "checkin" → AfterUpdate msg.body)
        → P (process net face turn state msg).0
    unfolding process
    process-steps msg same change =
        if_induction (λ (s : State net face). P s.0) (msg.type == "checkin") _ _
          (λ e.
            after_fetch-steps msg.body same (change ((eq_iff msg.type "checkin").0 e))
              (get_event turn.fetch state.0 msg.body))
          (λ _. same)

  -- Whatever the messages, the face service and the database answer, the worker changes nothing but
  -- the status and the score of events, and keeps the tables consistent.
  pub run-IsKept :
      (state : State net face) (rounds : List (Turn × Message))
      → IsConsistent state.0
      → IsKept state.0 (run net face state rounds).0 × IsConsistent (run net face state rounds).0
  unfolding run
  run-IsKept state [] h = (IsKept-refl state.0, h)
  run-IsKept state ((turn, msg) ∷ rest) h =
      let next = process net face turn state msg in
      let kept =
        process-steps (IsKept state.0) turn state msg (IsKept-refl state.0)
          (λ _ status score. update-IsKept turn.mark state.0 msg.body status score) in
      let good = process-steps IsConsistent turn state msg h (λ _ status score.
        Write-IsConsistent state.0 _ (put_status turn.mark msg.body status score) h) in
      let (rest_kept, rest_good) = run-IsKept next rest good in
      (IsKept-trans state.0 next.0 _ kept rest_kept, rest_good)

  -- The message asks for the event of that id.
  abbrev pub Names : String → Message → Type 0
  Names id msg = (msg.type ≡ "checkin") × (msg.body ≡ id)

  -- An event that no message names is read after the run as before it.
  pub run-unnamed :
      (call : Call) (id : String) (state : State net face) (rounds : List (Turn × Message))
      → All (λ (r : Turn × Message). Names id r.1 → ⊥) rounds
      → get_event call (run net face state rounds).0 id ≡ get_event call state.0 id
  unfolding run
  run-unnamed call id state [] h = refl
  run-unnamed call id state ((turn, msg) ∷ rest) (unnamed, others) =
      run-unnamed call id (process net face turn state msg) rest others
      ∙ process-steps (λ db. get_event call db id ≡ get_event call state.0 id) turn state msg refl
          (λ checkin status score.
            update-other turn.mark call state.0 msg.body id status score
              λ same. unnamed (checkin, same))

  -- While the database answers, one round settles the event that its message names: it becomes
  -- "processed", with the score that the face service gave, or "failed", with its old score.
  pub process-settled :
      (turn : Turn) (call : Call) (state : State net face) (id : String) (e : Event)
      → turn.fetch.fault ≡ none
      → turn.mark.fault ≡ none
      → call.fault ≡ none
      → get_event call state.0 id ≡ ok e
      → get_event call (process net face turn state (record { type = "checkin"; body = id })).0 id
        ≡ ok (settled (embed_with_score net face state.1 e.image_url).1 e)
  unfolding process after_fetch
  process-settled turn call state id e up up' up'' found =
      rw (same_answer turn.fetch call state.0 id up up'' ∙ found) (
        after_embed-settled turn call state.0 id e (embed_with_score net face state.1 e.image_url).1
          up' up'' found)
