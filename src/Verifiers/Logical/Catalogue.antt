-- ===== src/Verifiers/Logical/Catalogue.antt =====
-- trainfer/objectives/verifiers/_logical.py: `verify` finds the task of a prompt.
use trainfer.Prelude.{
  ◌≡◌, ◌⊎◌, inl, inr, refl, sym, ap, subst, ◌∙◌, Bool, true, false, ◌||◌, Option, none, some, List,
  [], ◌∷◌, map, String, Dict, get, set_item, update, str_eq, get_hit, get_miss, get-set_item,
  get-set_other, if_true, if_false, if_elim, Bool-cases, All, All-map2, All-preimage,
}
use trainfer.Reasoning.{Text}
use trainfer.Verifiers.{Outcome, returned, raised, mem, keys}
use trainfer.Verifiers.Comparing.{Python}
use trainfer.Verifiers.Logical.{
  Task, Pinned, nothing_loaded, judge, judge_found, by_id, by_hash, task_of, load, claims_loaded,
  claims, verify_claimed, verify,
}

abbrev pub Distinct : List String → Type 0
Distinct [] = Unit
Distinct (k ∷ ks) = (mem k ks ≡ false) × Distinct ks

abbrev is_some {ℓ} : {A : Type ℓ} → Option A → Bool
is_some none = false
is_some (some a) = true

mem-keys {ℓ} : {A : Type ℓ} (k : String) (d : Dict A) → mem k (keys d) ≡ is_some (get k d)
unfolding get
mem-keys k [] = refl
mem-keys k ((c, v) ∷ d) = elim (Bool-cases (str_eq c k)) [
  | inl hit ↦ ap (λ b. b || mem k (keys d)) hit ∙ sym (ap is_some (get_hit k c v d hit))
  | inr miss ↦
      ap (λ b. b || mem k (keys d)) miss ∙ mem-keys k d ∙ sym (ap is_some (get_miss k c v d miss))
]

or_false : (a b : Bool) → (a || b) ≡ false → (a ≡ false) × (b ≡ false)
or_false true b h = absurd (cc h)
or_false false b h = (refl, h)

get-update_other {ℓ} :
    {A : Type ℓ} (k : String) (items d : Dict A)
    → mem k (keys items) ≡ false
    → get k (update d items) ≡ get k d
unfolding update
get-update_other k [] d n = refl
get-update_other k ((c, v) ∷ items) d n =
    let (here, later) = or_false (str_eq c k) (mem k (keys items)) n in
    get-update_other k items (set_item c v d) later ∙ get-set_other k c v d here

get-update {ℓ} :
    {A : Type ℓ} (items d : Dict A)
    → Distinct (keys items)
    → All (λ item. get item.0 (update d items) ≡ some item.1) items
unfolding update
get-update [] d h = tt
get-update ((k, v) ∷ items) d h = (
  get-update_other k items (set_item k v d) h.0 ∙ get-set_item k v d,
  get-update items (set_item k v d) h.1,
)

module _ {F : Type 0} (py : Python F) (ts : List Task) where
  abbrev pub of_tasks : Pinned
  of_tasks = record {
    tasks = some (update [] (map by_id ts));
    by_prompt = update [] (map (by_hash py) ts);
  }

  -- The state before the tasks are read, and after.
  abbrev pub IsPinned : Pinned → Type 0
  IsPinned pinned = (pinned ≡ nothing_loaded) ⊎ (pinned ≡ of_tasks)

  load-IsPinned :
      (pinned : Pinned) → IsPinned pinned → load py (returned ts) pinned ≡ (returned tt, of_tasks)
  load-IsPinned pinned (inl e) = ap (load py (returned ts)) e
  load-IsPinned pinned (inr e) = ap (load py (returned ts)) e

  verify_read :
      (pinned : Pinned) (prompt : String) (candidate : Text)
      → IsPinned pinned
      → str_eq prompt "" ≡ false
      → verify py (returned ts) pinned prompt candidate
        ≡ verify_claimed py prompt candidate
            (returned (mem (py.hash prompt) (keys of_tasks.by_prompt)), of_tasks)
  unfolding verify claims
  verify_read pinned prompt candidate h n = ap (verify_claimed py prompt candidate) (
      if_false {b = str_eq prompt ""} _ _ n ∙ ap (claims_loaded py prompt) (load-IsPinned pinned h))

  found :
      (pinned : Pinned) (t : Task) (candidate : Text)
      → IsPinned pinned
      → str_eq t.prompt "" ≡ false
      → get (py.hash t.prompt) of_tasks.by_prompt ≡ some t.task_id
      → get t.task_id (update [] (map by_id ts)) ≡ some t
      → verify py (returned ts) pinned t.prompt candidate ≡ (judge py t candidate, of_tasks)
  found pinned t candidate h n e e' =
      verify_read pinned t.prompt candidate h n
      ∙ ap (λ b. verify_claimed py t.prompt candidate (returned b, of_tasks))
          (mem-keys (py.hash t.prompt) of_tasks.by_prompt ∙ ap is_some e)
      ∙ ap (λ o. (judge_found py (task_of of_tasks.tasks o) candidate, of_tasks)) e
      ∙ ap (λ o. (judge_found py o candidate, of_tasks)) e'

  other :
      (pinned : Pinned)
      → IsPinned pinned
      → (prompt : String) (candidate : Text)
      → mem (py.hash prompt) (keys (map (by_hash py) ts)) ≡ false
      → (verify py (returned ts) pinned prompt candidate).0 ≡ returned none
  unfolding verify claims get
  other pinned h prompt candidate n = elim (Bool-cases (str_eq prompt "")) [
    | inl empty ↦
        ap (λ r. (verify_claimed py prompt candidate r).0)
          (if_true {b = str_eq prompt ""} _ _ empty)
    | inr some_prompt ↦
        ap (λ r. r.0) (verify_read pinned prompt candidate h some_prompt)
        ∙ ap (λ b. (verify_claimed py prompt candidate (returned b, of_tasks)).0)
            (mem-keys (py.hash prompt) of_tasks.by_prompt
              ∙ ap is_some (get-update_other (py.hash prompt) (map (by_hash py) ts) [] n))
  ]

  claimed_state :
      (prompt : String) (candidate : Text) (r : Outcome Bool × Pinned)
      → (verify_claimed py prompt candidate r).1 ≡ r.1
  claimed_state prompt candidate (raised, pinned) = refl
  claimed_state prompt candidate (returned true, pinned) = refl
  claimed_state prompt candidate (returned false, pinned) = refl

  goes_on :
      (pinned : Pinned)
      → IsPinned pinned
      → (prompt : String) (candidate : Text)
      → IsPinned (verify py (returned ts) pinned prompt candidate).1
  unfolding verify claims
  goes_on pinned h prompt candidate = elim (Bool-cases (str_eq prompt "")) [
    | inl empty ↦
        subst IsPinned
          (sym (
            ap (λ r. (verify_claimed py prompt candidate r).1)
              (if_true {b = str_eq prompt ""} _ _ empty)))
          h
    | inr some_prompt ↦ inr (
        ap (λ r. r.1) (verify_read pinned prompt candidate h some_prompt)
        ∙ claimed_state prompt candidate
            (returned (mem (py.hash prompt) (keys of_tasks.by_prompt)), of_tasks))
  ]

-- What the verifier answers while the tasks can be read, in every state that its calls go through.
pub record Answers {F : Type 0} (py : Python F) (ts : List Task) (pinned : Pinned) : Type 0 where
  of_task :
      All
        (λ t.
          (str_eq t.prompt "" ≡ false)
          → (candidate : Text)
          → verify py (returned ts) pinned t.prompt candidate
            ≡ (judge py t candidate, of_tasks py ts))
        ts
  of_other :
      (prompt : String) (candidate : Text)
      → mem (py.hash prompt) (keys (map (by_hash py) ts)) ≡ false
      → (verify py (returned ts) pinned prompt candidate).0 ≡ returned none
  of_nothing :
      (candidate : Text) → verify py (returned ts) pinned "" candidate ≡ (returned none, pinned)
  goes_on :
      (prompt : String) (candidate : Text)
      → IsPinned py ts (verify py (returned ts) pinned prompt candidate).1

-- With distinct task ids and distinct hashes of the prompts, both before the tasks are read and after:
-- each prompt of a task, unless empty, is judged by that task; a prompt with the hash of none, and the
-- empty one, is not judged; and each call leaves one of these two states, the second one if it judged.
pub verify-Answers :
    {F : Type 0} (py : Python F) (ts : List Task) (pinned : Pinned)
    → Distinct (keys (map by_id ts))
    → Distinct (keys (map (by_hash py) ts))
    → IsPinned py ts pinned
    → Answers py ts pinned
unfolding verify claims
verify-Answers py ts pinned ids hashes h = record {
  of_task =
      All-map2 _ _ _ ts (λ t e e' n candidate. found py ts pinned t candidate h n e e')
        (All-preimage _ (by_hash py) ts (get-update (map (by_hash py) ts) [] hashes))
        (All-preimage _ by_id ts (get-update (map by_id ts) [] ids));
  of_other = other py ts pinned h;
  of_nothing = λ candidate. refl;
  goes_on = goes_on py ts pinned h;
}

-- `_TASKS` set to {}, and no hashes.
abbrev pub emptied : Pinned
emptied = record { tasks = some []; by_prompt = [] }

-- If the tasks cannot be read at the first call with a prompt that is not empty, that call raises, and
-- in the state that it leaves no prompt is judged, also when the tasks could be read: `_TASKS` is
-- already set, to {}, and the state stays.
pub verify_after_failure :
    {F : Type 0} (py : Python F) (first : String) (answer : Text)
    → str_eq first "" ≡ false
    → (verify py raised nothing_loaded first answer ≡ (raised, emptied))
      × ((source : Outcome (List Task)) (prompt : String) (candidate : Text)
          → verify py source emptied prompt candidate ≡ (returned none, emptied))
unfolding verify claims
verify_after_failure py first answer n = (
  ap (verify_claimed py first answer) (if_false {b = str_eq first ""} _ _ n),
  λ source prompt candidate.
      if_elim (λ r. verify_claimed py prompt candidate r ≡ (returned none, emptied))
        (str_eq prompt "") (returned false, emptied) (returned false, emptied) (λ _. refl)
        (λ _. refl),
)
