-- ===== src/Verifiers/Logical.antt =====
-- trainfer/objectives/verifiers/_logical.py: the verifier of the pinned logical tasks. Prompts and ids
-- are `String`. The tasks that are read have their required keys.

pub mod Catalogue
use trainfer.Prelude.{
  ℕ, Bool, true, false, not, ◌&&◌, ◌||◌, Option, none, some, List, [], ◌∷◌, ◌++◌, map, keep, String,
  Dict, get, set_item, update, str_eq, leb, ◌==◌, if◌then◌else◌,
}
use trainfer.Reasoning.{Text}
use trainfer.Verifiers.{Outcome, returned, raised, mem, keys}
use trainfer.Verifiers.Comparing.{Python, Mode, mode_or_default, compare, extract}

pub record Task : Type 0 where
  pub task_id : String
  pub prompt : String
  pub expected : Text
  pub pattern : Option Text
  pub compares : Option Mode

-- `_TASKS` and `_BY_PROMPT`.
pub record Pinned : Type 0 where
  pub tasks : Option (Dict Task)
  pub by_prompt : Dict String

abbrev pub nothing_loaded : Pinned
nothing_loaded = record { tasks = none; by_prompt = [] }

abbrev pub by_id : Task → String × Task
by_id t = (t.task_id, t)

abbrev pub task_of : Option (Dict Task) → Option String → Option Task
task_of (some tasks) (some task_id) = get task_id tasks
task_of _ _ = none

module _ {F : Type 0} (py : Python F) where
  abbrev pub judge_answer : Task → Outcome (Option Text) → Outcome (Option Bool)
  judge_answer task raised = raised
  judge_answer task (returned none) = returned (some false)
  judge_answer task (returned (some got)) =
      returned (some (compare py got task.expected (mode_or_default task.compares)))

  -- What a task says of a candidate.
  abbrev pub judge : Task → Text → Outcome (Option Bool)
  judge task candidate = judge_answer task (extract py candidate task.pattern)

  abbrev pub by_hash : Task → String × String
  by_hash t = (py.hash t.prompt, t.task_id)

  -- `_TASKS` is set to {} before the tasks are read.
  abbrev pub load_from : Outcome (List Task) → Dict String → Outcome Unit × Pinned
  load_from raised by_prompt = (raised, record { tasks = some []; by_prompt = by_prompt })
  load_from (returned ts) by_prompt = (
    returned tt,
    record {
      tasks = some (update [] (map by_id ts));
      by_prompt = update by_prompt (map by_hash ts);
    },
  )

  abbrev pub load_unless : Outcome (List Task) → Pinned → Option (Dict Task) → Outcome Unit × Pinned
  load_unless source pinned none = load_from source pinned.by_prompt
  load_unless source pinned (some tasks) = (returned tt, pinned)

  -- `_load`, with what `load_tasks` gives.
  abbrev pub load : Outcome (List Task) → Pinned → Outcome Unit × Pinned
  load source pinned = load_unless source pinned pinned.tasks

  abbrev pub claims_loaded : String → Outcome Unit × Pinned → Outcome Bool × Pinned
  claims_loaded prompt (raised, pinned) = (raised, pinned)
  claims_loaded prompt (returned _, pinned) =
      (returned (mem (py.hash prompt) (keys pinned.by_prompt)), pinned)

  unfoldable pub claims : Outcome (List Task) → Pinned → String → Outcome Bool × Pinned
  claims source pinned prompt =
      if str_eq prompt ""
      then (returned false, pinned)
      else claims_loaded prompt (load source pinned)

  -- A KeyError without the task.
  abbrev pub judge_found : Option Task → Text → Outcome (Option Bool)
  judge_found none candidate = raised
  judge_found (some task) candidate = judge task candidate

  abbrev pub verify_claimed : String → Text → Outcome Bool × Pinned → Outcome (Option Bool) × Pinned
  verify_claimed prompt candidate (raised, pinned) = (raised, pinned)
  verify_claimed prompt candidate (returned false, pinned) = (returned none, pinned)
  verify_claimed prompt candidate (returned true, pinned) =
      (judge_found (task_of pinned.tasks (get (py.hash prompt) pinned.by_prompt)) candidate, pinned)

  unfoldable pub verify :
      Outcome (List Task) → Pinned → String → Text → Outcome (Option Bool) × Pinned
  verify source pinned prompt candidate =
      verify_claimed prompt candidate (claims source pinned prompt)
