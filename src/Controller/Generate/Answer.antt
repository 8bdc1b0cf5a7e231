-- ===== src/Controller/Generate/Answer.antt =====
-- trainfer/server.py: the whole event stream of a chat, whatever the model does.
use mathlib.Core.List.{append_assoc, append-nil}
use trainfer.Prelude.{
  ℕ, ◌≡◌, refl, sym, ap, ◌∙◌, Bool, true, false, Option, none, some, List, [], ◌∷◌, ◌++◌, if_elim,
  All, All-append,
}
use trainfer.Reasoning.{Text, ReasoningParser, make_state}
use trainfer.Reasoning.Streaming.{stream, concat}
use trainfer.Reasoning.Families.{get_parser_for_model}
use trainfer.Reasoning.Families.Streams.{family-stream}
use trainfer.Controller.Generate.{
  parses, active_parser, error_event, final_event, plain_events, flushed, chunk_events,
  parsed_events, stream_generate, SseChunk, stop, failed, done, usage_chunk, sse, chat_stream,
}
use trainfer.Controller.Generate.Stream.{
  both, gather, IsDelta, IsDeltaEvent, gather_events, gather_events-append, parsed-IsDeltaEvent,
  plain-IsDeltaEvent, if_any-IsDeltaEvent, parsed-stream, plain-gather, expected, Relayed, relayed,
}

-- A parser whose stream is its specification.
abbrev Follows : Option ReasoningParser → Type 0
Follows none = Unit
Follows (some p) = (ds : List Text) → stream p (make_state p) ds ≡ expected (some p) (concat ds)

active-Follows :
    (lower : Text → Text) (model_name : Text) (parse_reasoning : Bool)
    (enable_thinking : Option Bool)
    → Follows (active_parser lower model_name parse_reasoning enable_thinking)
unfolding active_parser
active-Follows lower model_name parse_reasoning enable_thinking =
    if_elim Follows (parses parse_reasoning enable_thinking) _ _
      (λ _. found (get_parser_for_model lower model_name) refl) (λ _. tt)
  where
    found : (o : Option ReasoningParser) → get_parser_for_model lower model_name ≡ o → Follows o
    found none e = tt
    found (some p) e = λ ds. family-stream lower model_name p ds e

chunks-expected :
    (parser : Option ReasoningParser) (chunks : List Text)
    → Follows parser
    → let (events, tail) = chunk_events parser chunks in
      both (gather_events events) (gather_events tail) ≡ expected parser (concat chunks)
chunks-expected none chunks h =
    sym (gather_events-append (plain_events chunks) [])
    ∙ ap gather_events (append-nil (plain_events chunks))
    ∙ plain-gather chunks
chunks-expected (some p) chunks h =
    let (events, last) = parsed_events p (make_state p) chunks in
    sym (gather_events-append events (flushed last))
    ∙ parsed-stream p (make_state p) chunks
    ∙ h chunks

chunks-IsDeltaEvent :
    (parser : Option ReasoningParser) (chunks : List Text)
    → let (events, tail) = chunk_events parser chunks in
      All IsDeltaEvent events × All IsDeltaEvent tail
chunks-IsDeltaEvent none chunks = (plain-IsDeltaEvent chunks, tt)
chunks-IsDeltaEvent (some p) chunks =
    (parsed-IsDeltaEvent p (make_state p) chunks, if_any-IsDeltaEvent _ _)

all_relayed :
    (counts : Text → Option (ℕ × ℕ)) (parser : Option ReasoningParser) (chunks : List Text)
    → let (events, tail) = chunk_events parser chunks in Relayed counts (events ++ tail)
all_relayed counts parser chunks =
    let (events, tail) = chunk_events parser chunks in
    let (ours, flush) = chunks-IsDeltaEvent parser chunks in
    relayed counts (events ++ tail) (All-append IsDeltaEvent events tail ours flush)

both_nothing : (t : Text × Text) → both t ([], []) ≡ t
both_nothing (r, c) = λ i. (append-nil r i, append-nil c i)

all_given :
    (counts : Text → Option (ℕ × ℕ)) (parser : Option ReasoningParser) (chunks : List Text)
    → Follows parser
    → both (gather (all_relayed counts parser chunks).chunks) ([], [])
      ≡ expected parser (concat chunks)
all_given counts parser chunks h =
    let (events, tail) = chunk_events parser chunks in
    let relay = all_relayed counts parser chunks in
    both_nothing (gather relay.chunks)
    ∙ relay.text
    ∙ gather_events-append events tail
    ∙ chunks-expected parser chunks h

-- How a stream ends for the client.
abbrev pub ending : Bool → Bool → ℕ → Option (ℕ × ℕ) → List SseChunk
ending true has_messages committed tokens = failed ∷ done ∷ []
ending false true committed tokens = stop committed ∷ (usage_chunk tokens ++ (done ∷ []))
ending false false committed tokens = failed ∷ done ∷ []

abbrev pub kept_text : Bool → Bool → Text → Option Text
kept_text true has_messages text = none
kept_text false true text = some text
kept_text false false text = none

-- What is given out as deltas, what is held back, and the end.
pub record Answers (strip : Text → Text) (counts : Text → Option (ℕ × ℕ))
    (parser : Option ReasoningParser) (chunks : List Text) (has_failed has_messages : Bool)
    (committed : ℕ) : Type 0 where
  deltas : List SseChunk
  only : All IsDelta deltas
  held : Text × Text
  whole : both (gather deltas) held ≡ expected parser (concat chunks)
  nothing_held : has_failed ≡ false → held ≡ ([], [])
  out :
      chat_stream counts (stream_generate strip parser chunks has_failed has_messages committed)
      ≡ deltas ++ ending has_failed has_messages committed (counts (strip (concat chunks)))
  kept :
      (stream_generate strip parser chunks has_failed has_messages committed).remembered
      ≡ kept_text has_failed has_messages (strip (concat chunks))

answer :
    (strip : Text → Text) (counts : Text → Option (ℕ × ℕ)) (parser : Option ReasoningParser)
    (chunks : List Text) (has_failed has_messages : Bool) (committed : ℕ)
    → Follows parser
    → Answers strip counts parser chunks has_failed has_messages committed
unfolding stream_generate sse
answer strip counts parser chunks true has_messages committed h =
    let (events, tail) = chunk_events parser chunks in
    let (ours, _) = chunks-IsDeltaEvent parser chunks in
    let relay = relayed counts events ours in
    record {
      deltas = relay.chunks;
      only = relay.deltas;
      held = gather_events tail;
      whole = ap (λ t. both t (gather_events tail)) relay.text ∙ chunks-expected parser chunks h;
      nothing_held = λ e. absurd (cc e);
      out = relay.before (error_event ∷ []) false;
      kept = refl;
    }
answer strip counts parser chunks false true committed h =
    let (events, tail) = chunk_events parser chunks in
    let full = strip (concat chunks) in
    let relay = all_relayed counts parser chunks in
    record {
      deltas = relay.chunks;
      only = relay.deltas;
      held = ([], []);
      whole = all_given counts parser chunks h;
      nothing_held = λ _. refl;
      out =
          ap (λ l. sse counts l false)
            (sym (append_assoc events tail (final_event full committed ∷ [])))
          ∙ relay.before (final_event full committed ∷ []) false;
      kept = refl;
    }
answer strip counts parser chunks false false committed h =
    let (events, tail) = chunk_events parser chunks in
    let relay = all_relayed counts parser chunks in
    record {
      deltas = relay.chunks;
      only = relay.deltas;
      held = ([], []);
      whole = all_given counts parser chunks h;
      nothing_held = λ _. refl;
      out = ap (λ l. sse counts l true) (sym (append-nil (events ++ tail))) ∙ relay.before [] true;
      kept = refl;
    }

-- Whatever the model is called, however its output is cut into chunks, and whether or not reasoning is
-- parsed: the event stream of a chat is a list of deltas and then an end. What the deltas hold and what
-- is held back make up the split of the whole output into reasoning and answer (all of it the answer
-- without a parser), and nothing is held back unless the model fails. The end is the stop chunk with
-- the commit cursor, the token counts where the tokenizer gives them, and the mark of the end; it is an error
-- and that mark if the model fails or there is no message. The stripped output is remembered exactly if it
-- does not fail and there is a message.
pub chat_stream-Answers :
    (lower strip : Text → Text) (counts : Text → Option (ℕ × ℕ)) (model_name : Text)
    (parse_reasoning : Bool) (enable_thinking : Option Bool) (chunks : List Text)
    (has_failed has_messages : Bool) (committed : ℕ)
    → Answers strip counts
        (active_parser lower model_name parse_reasoning enable_thinking)
        chunks
        has_failed
        has_messages
        committed
chat_stream-Answers lower strip counts model_name parse_reasoning enable_thinking chunks has_failed
      has_messages committed =
    answer strip counts (active_parser lower model_name parse_reasoning enable_thinking) chunks
      has_failed has_messages committed
      (active-Follows lower model_name parse_reasoning enable_thinking)
