-- ===== src/Tests/ChatRuns.antt =====
-- trainfer/server.py: the event stream of a chat with a model that thinks.
use trainfer.Prelude.{ℕ, ◌≡◌, refl, true, false, Option, none, some, List, [], ◌∷◌}
use trainfer.Reasoning.{
  Text, make_state, feed, feed_mode, feed_pending, pending_turn, feed_reasoning, reasoning_turn,
  feed_content, finalize, finalize_mode, split_at, starts_with, extract_final, split_end,
}
use trainfer.Reasoning.Families.{think_parser, get_parser_for_model, first_match, contains}
use trainfer.Controller.Generate.{
  active_parser, generated, parsed_events, stream_generate, delta, stop, usage, done, sse,
  chat_stream,
}
use trainfer.Controller.Generate.Answer.{Answers, chat_stream-Answers}

abbrev same : Text → Text
same s = s

abbrev two_three : Text → Option (ℕ × ℕ)
two_three text = some (2, 3)

-- "magistral-2"
abbrev a_model : Text
a_model = 109 ∷ 97 ∷ 103 ∷ 105 ∷ 115 ∷ 116 ∷ 114 ∷ 97 ∷ 108 ∷ 45 ∷ 50 ∷ []

-- "<think>5</think>6", cut inside the tags
abbrev pieces : List Text
pieces =
    (60 ∷ 116 ∷ 104 ∷ 105 ∷ [])
    ∷ (110 ∷ 107 ∷ 62 ∷ 53 ∷ 60 ∷ 47 ∷ 116 ∷ [])
    ∷ (104 ∷ 105 ∷ 110 ∷ 107 ∷ 62 ∷ 54 ∷ [])
    ∷ []

chat_stream-Answers_example :
    Answers same two_three (active_parser same a_model true none) pieces false true 7
chat_stream-Answers_example =
    chat_stream-Answers same same two_three a_model true none pieces false true 7

registered : active_parser same a_model true none ≡ some (think_parser false)
unfolding active_parser get_parser_for_model first_match contains starts_with
registered = refl

thought_and_answer :
    chat_stream two_three
      (stream_generate same (active_parser same a_model true none) pieces false true 7)
    ≡ delta (some (54 ∷ [])) (some (53 ∷ [])) ∷ stop 7 ∷ usage 2 3 ∷ done ∷ []
unfolding sse stream_generate parsed_events feed feed_mode feed_pending pending_turn feed_reasoning
    reasoning_turn feed_content finalize finalize_mode split_at starts_with active_parser
    get_parser_for_model first_match contains make_state
thought_and_answer = refl

-- The same text at once.
answered_at_once :
    generated same
      (some (think_parser true))
      (53 ∷ (60 ∷ 47 ∷ 116 ∷ 104 ∷ 105 ∷ 110 ∷ 107 ∷ 62 ∷ 54 ∷ []))
    ≡ record {
      response = 54 ∷ [];
      reasoning_content = some (53 ∷ []);
      raw = 53 ∷ 60 ∷ 47 ∷ 116 ∷ 104 ∷ 105 ∷ 110 ∷ 107 ∷ 62 ∷ 54 ∷ [];
    }
unfolding generated extract_final split_end split_at starts_with
answered_at_once = refl
