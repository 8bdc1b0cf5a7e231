-- ===== src/Controller/Generate/Stream.antt =====
-- trainfer/server.py: what the event stream of a chat is, from the model's chunks to the client.
use mathlib.Core.List.{append_assoc, append-nil}
use trainfer.Prelude.{
  ℕ, ◌≡◌, refl, sym, ap, ◌∙◌, Bool, Option, none, some, List, [], ◌∷◌, ◌++◌, if◌then◌else◌, All,
  All-append, or_default,
}
use trainfer.Reasoning.{
  Text, ReasoningParser, ParserState, feed, finalize, reasoning, pending_start,
}
use trainfer.Reasoning.Streaming.{stream, split_mode, concat}
use trainfer.Controller.Generate.{
  or_absent, StreamEvent, delta_event, error_event, final_event, event_if_any, parsed_events,
  plain_events, flushed, SseChunk, delta, sse,
}

abbrev pub both : Text × Text → Text × Text → Text × Text
both (r, c) (r', c') = (r ++ r', c ++ c')

-- The reasoning and the content of the deltas, put together.
abbrev pub gather : List SseChunk → Text × Text
gather [] = ([], [])
gather (delta answer thought ∷ chunks) =
    both (or_default thought [], or_default answer []) (gather chunks)
gather (_ ∷ chunks) = gather chunks

abbrev pub IsDelta : SseChunk → Type 0
IsDelta (delta answer thought) = Unit
IsDelta _ = ⊥

abbrev pub IsDeltaEvent : StreamEvent → Type 0
IsDeltaEvent (delta_event answer thought) = Unit
IsDeltaEvent _ = ⊥

abbrev pub gather_events : List StreamEvent → Text × Text
gather_events [] = ([], [])
gather_events (delta_event answer thought ∷ events) = both (thought, answer) (gather_events events)
gather_events (_ ∷ events) = gather_events events

pub gather_events-append :
    (xs ys : List StreamEvent)
    → gather_events (xs ++ ys) ≡ both (gather_events xs) (gather_events ys)
gather_events-append [] ys = refl
gather_events-append (delta_event c r ∷ xs) ys =
    let (r', c') = gather_events xs in
    let (r'', c'') = gather_events ys in
    ap (both (r, c)) (gather_events-append xs ys)
    ∙ (λ i. (sym (append_assoc r r' r'') i, sym (append_assoc c c' c'') i))
gather_events-append (error_event ∷ xs) ys = gather_events-append xs ys
gather_events-append (final_event t n ∷ xs) ys = gather_events-append xs ys

gather-if_any : (r c : Text) → gather_events (event_if_any r c) ≡ (r, c)
gather-if_any [] [] = refl
gather-if_any [] (x ∷ c) = λ i. ([], x ∷ append-nil c i)
gather-if_any (x ∷ r) c = λ i. (x ∷ append-nil r i, append-nil c i)

pub if_any-IsDeltaEvent : (r c : Text) → All IsDeltaEvent (event_if_any r c)
if_any-IsDeltaEvent [] [] = tt
if_any-IsDeltaEvent [] (x ∷ c) = (tt, tt)
if_any-IsDeltaEvent (x ∷ r) c = (tt, tt)

pub parsed-IsDeltaEvent :
    (p : ReasoningParser) (st : ParserState) (chunks : List Text)
    → All IsDeltaEvent (parsed_events p st chunks).0
unfolding parsed_events
parsed-IsDeltaEvent p st [] = tt
parsed-IsDeltaEvent p st (chunk ∷ chunks) =
    let fed = feed p st chunk in
    All-append IsDeltaEvent (event_if_any fed.reasoning_delta fed.content_delta)
      (parsed_events p fed.state chunks).0
      (if_any-IsDeltaEvent fed.reasoning_delta fed.content_delta)
      (parsed-IsDeltaEvent p fed.state chunks)

pub plain-IsDeltaEvent : (chunks : List Text) → All IsDeltaEvent (plain_events chunks)
plain-IsDeltaEvent [] = tt
plain-IsDeltaEvent (chunk ∷ chunks) = (tt, plain-IsDeltaEvent chunks)

-- The events and the flush are the stream of the parser.
pub parsed-stream :
    (p : ReasoningParser) (st : ParserState) (chunks : List Text)
    → let (events, last) = parsed_events p st chunks in
      gather_events (events ++ flushed last) ≡ stream p st chunks
unfolding parsed_events stream
parsed-stream p st [] = gather-if_any (finalize st).0.0 (finalize st).0.1
parsed-stream p st (chunk ∷ chunks) =
    let fed = feed p st chunk in
    let here = event_if_any fed.reasoning_delta fed.content_delta in
    let (events, last) = parsed_events p fed.state chunks in
    ap gather_events (append_assoc here events (flushed last))
    ∙ gather_events-append here (events ++ flushed last)
    ∙ ap (λ t. both t (gather_events (events ++ flushed last)))
        (gather-if_any fed.reasoning_delta fed.content_delta)
    ∙ ap (both (fed.reasoning_delta, fed.content_delta)) (parsed-stream p fed.state chunks)

pub plain-gather : (chunks : List Text) → gather_events (plain_events chunks) ≡ ([], concat chunks)
plain-gather [] = refl
plain-gather (chunk ∷ chunks) = ap (both ([], chunk)) (plain-gather chunks)

-- How the whole text should reach the client: reasoning and content.
abbrev pub expected : Option ReasoningParser → Text → Text × Text
expected none text = ([], text)
expected (some p) text = split_mode p (if p.start_in_prompt then reasoning else pending_start) text

-- A list of delta events goes to the client as deltas, which hold the same text, and what follows
-- them is as if they had not been there.
pub record Relayed (counts : Text → Option (ℕ × ℕ)) (events : List StreamEvent) : Type 0 where
  pub chunks : List SseChunk
  pub deltas : All IsDelta chunks
  pub text : gather chunks ≡ gather_events events
  pub before :
      (end : List StreamEvent) (raised : Bool)
      → sse counts (events ++ end) raised ≡ chunks ++ sse counts end raised

or_absent_lem : (text : Text) → or_default (or_absent text) [] ≡ text
or_absent_lem [] = refl
or_absent_lem (x ∷ text) = refl

pub relayed :
    (counts : Text → Option (ℕ × ℕ)) (events : List StreamEvent)
    → All IsDeltaEvent events
    → Relayed counts events
unfolding sse
relayed counts [] h = record { chunks = []; deltas = tt; text = refl; before = λ end raised. refl }
relayed counts (delta_event [] [] ∷ events) h =
    let later = relayed counts events h.1 in
    record {
      chunks = later.chunks;
      deltas = later.deltas;
      text = later.text;
      before = later.before;
    }
relayed counts (delta_event [] (x ∷ r) ∷ events) h =
    let later = relayed counts events h.1 in
    record {
      chunks = delta none (some (x ∷ r)) ∷ later.chunks;
      deltas = (tt, later.deltas);
      text = ap (both (x ∷ r, [])) later.text;
      before = λ end raised. ap (λ l. delta none (some (x ∷ r)) ∷ l) (later.before end raised);
    }
relayed counts (delta_event (x ∷ c) r ∷ events) h =
    let later = relayed counts events h.1 in
    record {
      chunks = delta (some (x ∷ c)) (or_absent r) ∷ later.chunks;
      deltas = (tt, later.deltas);
      text =
          ap (λ t. both (t, x ∷ c) (gather later.chunks)) (or_absent_lem r)
          ∙ ap (both (r, x ∷ c)) later.text;
      before =
          λ end raised. ap (λ l. delta (some (x ∷ c)) (or_absent r) ∷ l) (later.before end raised);
    }
relayed counts (error_event ∷ events) h = absurd h.0
relayed counts (final_event t n ∷ events) h = absurd h.0
