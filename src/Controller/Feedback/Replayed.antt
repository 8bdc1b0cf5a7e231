-- ===== src/Controller/Feedback/Replayed.antt =====
-- trainfer/controller.py: the idle replay routes the logged record of a feedback as the live path
-- routed the payload.
use trainfer.Prelude.{
  String, ◌≡◌, ◌≢◌, inl, inr, refl, true, Option, none, some, str_eq, str_eq_iff, if◌then◌else◌,
  Bool-cases, ap, sym, ◌∙◌,
}
use trainfer.Controller.Feedback.{
  Payload, truthy, or_else, kind_of, stamped, route, feedback_to_batch, Prior, prompt_of,
  response_of, materialize, logged_record, Batch,
}

-- A text that is there and empty is not filled in.
abbrev pub NotBlank : Option String → Type 0
NotBlank o = o ≢ some ""

truthy_of_NotBlank : (s : String) → some s ≢ some "" → truthy (some s) ≡ true
truthy_of_NotBlank s h = elim (Bool-cases (str_eq s "")) [
  | inl e ↦ absurd (h (ap some ((str_eq_iff s "").0 e)))
  | inr e ↦ rw e
]

or_else-materialize :
    (o fallback : Option String)
    → NotBlank o
    → or_else (materialize o fallback) none ≡ or_else o fallback
or_else-materialize (some s) fallback h = rw (truthy_of_NotBlank s h)
or_else-materialize none none h = refl
or_else-materialize none (some f) h = elim (Bool-cases (str_eq f "")) [
  | inl e ↦ rw e (sym ((str_eq_iff f "").0 e))
  | inr e ↦ rw e (rw e)
]

-- The log keeps the fields that routing reads.
route-logged :
    (k : String) (payload : Payload) (prior : Option Prior) (prompt bad : String)
    → route k (logged_record payload prior) prompt bad ≡ route k payload prompt bad
unfolding route logged_record
route-logged k payload prior prompt bad = refl

-- The kinds that the log makes of a missing one route nowhere, as the missing one does.
route-unknown :
    (r : Payload) (prompt bad : String) → route "unknown" r prompt bad ≡ route "" r prompt bad
unfolding route
route-unknown r prompt bad = refl

route-feedback :
    (r : Payload) (prompt bad : String) → route "feedback" r prompt bad ≡ route "" r prompt bad
unfolding route
route-feedback r prompt bad = refl

-- Whether the kind is stamped by the log or read from the payload, it routes alike.
route-kind_of :
    (fk k : Option String) (r : Payload) (prompt bad : String)
    → NotBlank fk
    → route (kind_of (stamped fk k) (some "feedback")) r prompt bad
      ≡ route (kind_of fk k) r prompt bad
route-kind_of (some s) k r prompt bad h = rw (truthy_of_NotBlank s h)
route-kind_of none none r prompt bad h = route-unknown r prompt bad
route-kind_of none (some s) r prompt bad h = elim (Bool-cases (truthy (some s))) [
  | inr blank ↦ rw blank (route-unknown r prompt bad)
  | inl full ↦ elim (Bool-cases (str_eq s "feedback")) [
    | inr other ↦ rw full (rw (full, other) refl)
    | inl event ↦
        rw full
          (rw (full, event) (rw ((str_eq_iff s "feedback").0 event) (route-feedback r prompt bad)))
  ]
]

-- A record routes by the texts its prompt and response come to.
feedback_to_batch_by :
    (r : Payload) (prompt_fallback response_fallback : Option String) (prompt bad : String)
    → or_else r.prompt prompt_fallback ≡ prompt
    → or_else r.response response_fallback ≡ bad
    → feedback_to_batch r prompt_fallback response_fallback
      ≡ (if str_eq prompt "" then none else route (kind_of r.feedback_kind r.kind) r prompt bad)
unfolding feedback_to_batch
feedback_to_batch_by r pf rf prompt bad hp hb = rw (hp, hb) refl

-- The fallbacks a logged record was filled in from are no longer needed to route it.
logged_routes :
    (payload : Payload) (prior : Option Prior)
    → NotBlank payload.prompt
    → NotBlank payload.response
    → let prompt = or_else payload.prompt (prompt_of prior) in
      let bad = or_else payload.response (response_of prior) in
      feedback_to_batch (logged_record payload prior) none none ≡ (
        if str_eq prompt ""
        then none
        else route
            (kind_of (stamped payload.feedback_kind payload.kind) (some "feedback"))
            (logged_record payload prior)
            prompt
            bad)
unfolding logged_record
logged_routes payload prior hp hr =
    feedback_to_batch_by (logged_record payload prior) none none
      (or_else payload.prompt (prompt_of prior)) (or_else payload.response (response_of prior))
      (or_else-materialize payload.prompt (prompt_of prior) hp)
      (or_else-materialize payload.response (response_of prior) hr)

-- Whatever a feedback payload holds and whether its response id is known, the record that is logged
-- for it, read back without any fallback, routes to the batch that the live path builds from the
-- payload and the response index, or to none where that builds none. The payload's prompt, response
-- and `feedback_kind` are absent or not empty.
pub replay-agrees :
    (payload : Payload) (prior : Option Prior)
    → NotBlank payload.prompt
    → NotBlank payload.response
    → NotBlank payload.feedback_kind
    → feedback_to_batch (logged_record payload prior) none none
      ≡ feedback_to_batch payload (prompt_of prior) (response_of prior)
replay-agrees payload prior hp hr hk =
    let prompt = or_else payload.prompt (prompt_of prior) in
    let bad = or_else payload.response (response_of prior) in
    let kind = kind_of (stamped payload.feedback_kind payload.kind) (some "feedback") in
    logged_routes payload prior hp hr
    ∙ ap (λ (b : Option Batch). if str_eq prompt "" then none else b)
        (route-logged kind payload prior prompt bad
          ∙ route-kind_of payload.feedback_kind payload.kind payload prompt bad hk)
    ∙ sym (feedback_to_batch_by payload (prompt_of prior) (response_of prior) prompt bad refl refl)
