-- ===== src/Controller/Generate.antt =====
-- trainfer/controller.py and trainfer/server.py: `generate` and `stream_generate`, and the event stream
-- of a chat. The model's chunks, and whether it fails after them, are arguments, and so are `strip` of
-- a text and the tokenizer's counts. Each event carries the id of the response. The wait for a commit
-- token comes before, and metrics are left out.

pub mod Stream
pub mod Answer
use trainfer.Prelude.{
  ℕ, Bool, true, false, not, ◌&&◌, ◌||◌, Option, none, some, List, [], ◌∷◌, ◌++◌, if◌then◌else◌,
}
use trainfer.Reasoning.{
  Text, ReasoningParser, ParserState, Fed, make_state, feed, finalize, extract_final,
}
use trainfer.Reasoning.Streaming.{concat}
use trainfer.Reasoning.Families.{get_parser_for_model}

abbrev pub has_text : Text → Bool
has_text [] = false
has_text (c ∷ s) = true

-- Whether reasoning is parsed: `enable_thinking is not False`.
abbrev pub parses : Bool → Option Bool → Bool
parses parse_reasoning none = parse_reasoning
parses parse_reasoning (some enable_thinking) = parse_reasoning && enable_thinking

unfoldable pub active_parser : (Text → Text) → Text → Bool → Option Bool → Option ReasoningParser
active_parser lower model_name parse_reasoning enable_thinking =
    if parses parse_reasoning enable_thinking then get_parser_for_model lower model_name else none

-- What `generate` answers for the text of the model.
pub record Generated : Type 0 where
  pub response : Text
  pub reasoning_content : Option Text
  pub raw : Text

abbrev pub or_absent : Text → Option Text
or_absent [] = none
or_absent (c ∷ s) = some (c ∷ s)

abbrev pub stripped : (Text → Text) → Text → Text
stripped strip [] = []
stripped strip (c ∷ s) = strip (c ∷ s)

unfoldable pub generated : (Text → Text) → Option ReasoningParser → Text → Generated
generated strip none text = record { response = text; reasoning_content = none; raw = text }
generated strip (some p) text =
    let (r, c) = extract_final p text in
    record { response = stripped strip c; reasoning_content = or_absent (strip r); raw = text }

pub data StreamEvent : Type 0 where
  -- content and reasoning
  delta_event : Text → Text → StreamEvent
  error_event : StreamEvent
  -- the whole text and the commit cursor
  final_event : Text → ℕ → StreamEvent

abbrev pub event_if_any : Text → Text → List StreamEvent
event_if_any reasoning_delta content_delta =
    if has_text reasoning_delta || has_text content_delta
    then delta_event content_delta reasoning_delta ∷ []
    else []

-- The loop over the chunks, and what the parser still holds back at its end.
unfoldable pub parsed_events :
    ReasoningParser → ParserState → List Text → List StreamEvent × ParserState
parsed_events p st [] = ([], st)
parsed_events p st (chunk ∷ chunks) =
    let fed = feed p st chunk in
    let (events, last) = parsed_events p fed.state chunks in
    (event_if_any fed.reasoning_delta fed.content_delta ++ events, last)

abbrev pub plain_events : List Text → List StreamEvent
plain_events [] = []
plain_events (chunk ∷ chunks) = delta_event chunk [] ∷ plain_events chunks

abbrev pub flushed : ParserState → List StreamEvent
flushed st = let ((r_tail, c_tail), _) = finalize st in event_if_any r_tail c_tail

-- The events of the chunks, and those of the flush after them.
abbrev pub chunk_events : Option ReasoningParser → List Text → List StreamEvent × List StreamEvent
chunk_events none chunks = (plain_events chunks, [])
chunk_events (some p) chunks =
    let (events, last) = parsed_events p (make_state p) chunks in (events, flushed last)

-- What a stream gives out, the text that it logs and remembers, and whether it raises in the end.
pub record Streamed : Type 0 where
  pub events : List StreamEvent
  pub remembered : Option Text
  pub raised : Bool

-- Without any message there is no prompt to log, and the code raises IndexError.
unfoldable pub stream_generate :
    (Text → Text) → Option ReasoningParser → List Text → Bool → Bool → ℕ → Streamed
stream_generate strip parser chunks has_failed has_messages committed =
    let (events, tail) = chunk_events parser chunks in
    let full_text = strip (concat chunks) in
    if has_failed
    then record { events = events ++ (error_event ∷ []); remembered = none; raised = false }
    else if has_messages
    then record {
      events = events ++ (tail ++ (final_event full_text committed ∷ []));
      remembered = some full_text;
      raised = false;
    }
    else record { events = events ++ tail; remembered = none; raised = true }

-- A line of the event stream; a delta has the keys whose text is not empty.
pub data SseChunk : Type 0 where
  delta : Option Text → Option Text → SseChunk
  stop : ℕ → SseChunk
  usage : ℕ → ℕ → SseChunk
  failed done : SseChunk

abbrev pub usage_chunk : Option (ℕ × ℕ) → List SseChunk
usage_chunk none = []
usage_chunk (some (prompt_tokens, completion_tokens)) = usage prompt_tokens completion_tokens ∷ []

-- The generator `sse` over the events, up to the end or an exception; `counts` is none where the
-- tokenizer fails.
unfoldable pub sse : (Text → Option (ℕ × ℕ)) → List StreamEvent → Bool → List SseChunk
sse counts [] raised = if raised then failed ∷ done ∷ [] else []
sse counts (error_event ∷ events) raised = failed ∷ done ∷ []
sse counts (final_event full cursor ∷ events) raised =
    stop cursor ∷ (usage_chunk (counts full) ++ (done ∷ []))
sse counts (delta_event content reasoning ∷ events) raised =
    let rest = sse counts events raised in
    if has_text content || has_text reasoning
    then delta (or_absent content) (or_absent reasoning) ∷ rest
    else rest

-- The streaming answer of a chat.
abbrev pub chat_stream : (Text → Option (ℕ × ℕ)) → Streamed → List SseChunk
chat_stream counts s = sse counts s.events s.raised
