-- ===== src/Controller/Feedback.antt =====
-- trainfer/controller.py: `feedback_to_batch`, and the part of `submit_feedback` that logs a
-- feedback record. A JSON object is a record of the keys that the code reads; an absent key is
-- `none`, and a key with an empty text is `some ""`. A weight is in thousandths (3.0 is 3000).
pub mod Replayed
use trainfer.Prelude.{
  ℕ, String, Bool, true, false, not, ◌&&◌, ◌||◌, Option, none, some, List, [], ◌∷◌, str_eq,
  if◌then◌else◌,
}
use trainfer.Errors.{structured, invalid_input, unknown_response_id, Result, ok, raise}

pub record Payload : Type 0 where
  pub feedback_kind : Option String
  pub kind : Option String
  pub prompt : Option String
  pub response : Option String
  pub value : Option String
  pub better_response : Option String
  pub critique : Option String
  pub weight : Option ℕ

pub data Label : Type 0 where
  desirable undesirable : Label

-- The one sample of a routed batch.
pub data Sample : Type 0 where
  labelled : String → String → Label → Sample
  weighted : String → String → ℕ → Sample
  criticised : String → String → String → Option String → Sample

pub record Batch : Type 0 where
  pub objective : String
  pub sample : Sample

-- Python's truth of `d.get(key)`: absent and empty are false
abbrev pub truthy : Option String → Bool
truthy none = false
truthy (some s) = not (str_eq s "")

abbrev pub text_of : Option String → String
text_of none = ""
text_of (some s) = s

-- a or b or ""
abbrev pub or_else : Option String → Option String → String
or_else a b = if truthy a then text_of a else text_of b

-- `feedback_kind` of a logged record, else `kind` unless it is the event kind "feedback"
abbrev pub kind_of : Option String → Option String → String
kind_of feedback_kind kind =
    if truthy feedback_kind
    then text_of feedback_kind
    else if truthy kind && not (str_eq (text_of kind) "feedback")
    then text_of kind
    else ""

abbrev weight_or_default : Option ℕ → ℕ
weight_or_default none = 3000
weight_or_default (some w) = w

abbrev label_of : Option String → Label
label_of v = if str_eq (text_of v) "up" then desirable else undesirable

route_rewrite : Payload → String → Option Batch
route_rewrite r prompt =
    if truthy r.better_response
    then some (record {
      objective = "weighted_sft";
      sample = weighted prompt (text_of r.better_response) (weight_or_default r.weight);
    })
    else none

route_critique : Payload → String → String → Option Batch
route_critique r prompt bad =
    if truthy r.critique
    then some
        (record { objective = "coh"; sample = criticised prompt bad (text_of r.critique) none })
    else none

route_critique_with_rewrite : Payload → String → String → Option Batch
route_critique_with_rewrite r prompt bad =
    if truthy r.critique && truthy r.better_response
    then some (record {
      objective = "coh";
      sample = criticised prompt bad (text_of r.critique) (some (text_of r.better_response));
    })
    else none

unfoldable pub route : String → Payload → String → String → Option Batch
unfolding route_rewrite route_critique route_critique_with_rewrite
route kind r prompt bad =
    if str_eq kind "binary"
    then some (record { objective = "kto"; sample = labelled prompt bad (label_of r.value) })
    else if str_eq kind "rewrite" || str_eq kind "preferred"
    then route_rewrite r prompt
    else if str_eq kind "nl_critique"
    then route_critique r prompt bad
    else if str_eq kind "nl_critique_with_rewrite"
    then route_critique_with_rewrite r prompt bad
    else none

unfoldable pub feedback_to_batch : Payload → Option String → Option String → Option Batch
feedback_to_batch r prompt_fallback response_fallback =
    let prompt = or_else r.prompt prompt_fallback in
    let bad = or_else r.response response_fallback in
    if str_eq prompt "" then none else route (kind_of r.feedback_kind r.kind) r prompt bad

-- What the response index holds of an answer: the content of the last message, and the response.
pub record Prior : Type 0 where
  pub last_content : Option String
  pub response : String

abbrev pub prompt_of : Option Prior → Option String
prompt_of none = none
prompt_of (some p) = p.last_content

abbrev pub response_of : Option Prior → Option String
response_of none = none
response_of (some p) = some p.response

-- `if key not in log_fields and fallback: log_fields[key] = fallback`
abbrev pub materialize : Option String → Option String → Option String
materialize (some s) fallback = some s
materialize none fallback = if truthy fallback then fallback else none

abbrev pub is_some : Option String → Bool
is_some none = false
is_some (some s) = true

abbrev pub stamped : Option String → Option String → Option String
stamped (some s) kind = some s
stamped none kind = some (if truthy kind then text_of kind else "unknown")

-- The record in the trajectory log: `log_feedback` stamps the event kind "feedback" and the routing
-- kind, which a `feedback_kind` among the payload's own fields overrides.
unfoldable pub logged_record : Payload → Option Prior → Payload
logged_record payload prior = record payload {
  kind = some "feedback";
  feedback_kind = stamped payload.feedback_kind payload.kind;
  prompt = materialize payload.prompt (prompt_of prior);
  response = materialize payload.response (response_of prior);
}

abbrev routed : Option Batch → Result Batch
routed none = raise (structured invalid_input)
routed (some b) = ok b

-- The outcome of `submit_feedback` before its call of `submit_train`: the record that was logged,
-- and the batch or the exception. Nothing is logged for an unknown response id.
unfoldable pub submit_feedback : Payload → Option Prior → Option Payload × Result Batch
submit_feedback payload none =
    if is_some payload.prompt
    then (some (logged_record payload none), routed (feedback_to_batch payload none none))
    else (none, raise (structured unknown_response_id))
submit_feedback payload (some p) = (
  some (logged_record payload (some p)),
  routed (feedback_to_batch payload (prompt_of (some p)) (response_of (some p))),
)
