-- ===== src/Tests/VerifierRuns.antt =====
-- trainfer/objectives/verifiers: a registry with a seed and two plugins, and a corpus of two tasks.
use trainfer.Prelude.{
  ℕ, ◌≡◌, ◌↔◌, refl, Bool, true, false, none, some, List, [], ◌∷◌, ◌==◌, String, Dict, update,
  set_item, get, inl, str_eq,
}
use trainfer.Reasoning.{Text}
use trainfer.Verifiers.{
  Outcome, returned, raised, Verifier, Plugin, insert, sorted, minus, load_each, load_plugins,
  select,
}
use trainfer.Verifiers.Plugins.{Reports, load_plugins-Reports}
use trainfer.Verifiers.Routing.{Routes, load_plugins-Routes}
use trainfer.Verifiers.Comparing.{Python, set_mode, text_eq, is_in, strip, tokens, compare, extract}
use trainfer.Verifiers.Logical.{Task, nothing_loaded, claims, verify}
use trainfer.Verifiers.Logical.Catalogue.{emptied, Answers, verify-Answers, verify_after_failure}
use trainfer.Verifiers.Comparing.Sets.{compare-set_tokens}

abbrev passes : Verifier Bool
passes = record {
  judges = λ prompt candidate. returned (some true);
  claims = some (λ prompt. returned (str_eq prompt "2+2"));
}

abbrev silent : Verifier Bool
silent = record { judges = λ prompt candidate. raised; claims = none }

abbrev seeds : Dict (Verifier Bool)
seeds = ("math", passes) ∷ []

abbrev plugins : List (Plugin Bool)
plugins =
    record { registers = ("maze", silent) ∷ ("arc", passes) ∷ []; fails = false }
    ∷ record { registers = ("half", silent) ∷ []; fails = true }
    ∷ []

-- Only the first two names matter for the order here.
abbrev arc_first : String → String → Bool
arc_first a b = str_eq a "arc"

load_plugins-Reports_example :
    Reports plugins seeds (load_plugins arc_first (returned plugins) seeds)
load_plugins-Reports_example = load_plugins-Reports arc_first plugins seeds

load_plugins-Routes_example : Routes seeds (load_plugins arc_first (returned plugins) seeds).1
load_plugins-Routes_example =
    load_plugins-Routes arc_first plugins seeds ((refl, (refl, tt)), ((refl, tt), tt))

-- The plugin that fails has registered its domain all the same.
loaded_or_not : (load_plugins arc_first (returned plugins) seeds).0 ≡ "arc" ∷ "maze" ∷ []
unfolding load_each update set_item sorted insert minus
loaded_or_not = refl

first_wins :
    select (load_plugins arc_first (returned plugins) seeds).1 "2+2" ≡ returned (some "math")
unfolding load_each update set_item select
first_wins = refl

abbrev py : Python ℕ
py = record {
  lower = λ s. s;
  is_space = λ c. c == 32;
  float = λ s. none;
  is_near = ◌==◌;
  finditer = λ pattern candidate. returned (returned candidate ∷ []);
  fullmatch = λ expected got. some (text_eq expected got);
  hash = λ s. s;
}

abbrev two_tasks : List Task
two_tasks =
    record { task_id = "a"; prompt = "p"; expected = 49 ∷ []; pattern = none; compares = none }
    ∷ record {
      task_id = "b";
      prompt = "q";
      expected = 49 ∷ 44 ∷ 50 ∷ [];
      pattern = none;
      compares = some set_mode;
    }
    ∷ []

verify-Answers_example : Answers py two_tasks nothing_loaded
verify-Answers_example =
    verify-Answers py two_tasks nothing_loaded (refl, (refl, tt)) (refl, (refl, tt)) (inl refl)

-- The expected answer "1,2", and the answer "2 1, 1".
twice :
    (verify py (returned two_tasks) nothing_loaded "q" (50 ∷ 32 ∷ 49 ∷ 44 ∷ 32 ∷ 49 ∷ [])).0
    ≡ returned (some true)
unfolding verify claims update set_item get extract compare
twice = refl

verify_after_failure_example :
    (verify py raised nothing_loaded "p" [] ≡ (raised, emptied))
    × ((source : Outcome (List Task)) (prompt : String) (candidate : Text)
        → verify py source emptied prompt candidate ≡ (returned none, emptied))
verify_after_failure_example = verify_after_failure py "p" [] refl

compare-set_tokens_example :
    (compare py (50 ∷ 44 ∷ 49 ∷ []) (49 ∷ 44 ∷ 50 ∷ []) set_mode ≡ true) ↔ (
      (x : Text)
      → is_in x (tokens py (strip py.is_space (50 ∷ 44 ∷ 49 ∷ [])))
        ≡ is_in x (tokens py (strip py.is_space (49 ∷ 44 ∷ 50 ∷ []))))
compare-set_tokens_example = compare-set_tokens py (50 ∷ 44 ∷ 49 ∷ []) (49 ∷ 44 ∷ 50 ∷ [])
