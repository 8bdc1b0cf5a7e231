-- ===== src/Ttrl/Labels.antt =====
-- trainfer/ttrl_mv.py: the text that a poll hands to `submit_train` as a training target.
use trainfer.Prelude.{
  ℕ, zero, suc, ◌≤◌, ◌≡◌, subst, String, Bool, Option, none, some, List, [], ◌∷◌, map, take, arith,
}
use trainfer.Ttrl.{
  Keys, TtrlPolicy, TtrlScheduler, Poll, rollout_at, sample_rollouts, label, majority_from_keys,
  pick_prompt, run_chosen, maybe_run_one,
}
use trainfer.Ttrl.Vote.{count, key_at}
use trainfer.Ttrl.Election.{Elects, majority_from_keys-Elects}

abbrev IsNone : Option String → Type 0
IsNone none = Unit
IsNone (some w) = ⊥

module _ (select : String → Option String) (key : String → String → Option String × Bool) where
  abbrev pub keys_of : String → List String → Keys
  keys_of domain rollouts = map (λ (k : Option String × Bool). k.0) (map (key domain) rollouts)

  key_at_rollout :
      (domain w : String) (rollouts : List String) (i : ℕ)
      → key_at (keys_of domain rollouts) i ≡ some w
      → (key domain (rollout_at rollouts i)).0 ≡ some w
  key_at_rollout domain w [] i h = absurd (subst IsNone h tt)
  key_at_rollout domain w (r ∷ rs) zero h = h
  key_at_rollout domain w (r ∷ rs) (suc i) h = key_at_rollout domain w rs i h

  -- The target's key, in some domain, is one that two rollouts or more have, and no key has more.
  abbrev pub IsAgreed : List String → Option String → Type 0
  IsAgreed rollouts none = Unit
  IsAgreed rollouts (some text) =
      (domain : String) × (w : String) × ((key domain text).0 ≡ some w)
      × (2 ≤ count w (keys_of domain rollouts))
      × ((v : String) → count v (keys_of domain rollouts) ≤ count w (keys_of domain rollouts))

  label-IsAgreed :
      (domain : String) (rollouts : List String) (vote : Option (ℕ × String))
      → Elects (keys_of domain rollouts) 2 vote
      → IsAgreed rollouts (label rollouts vote)
  label-IsAgreed domain rollouts none h = tt
  label-IsAgreed domain rollouts (some (i, w)) (enough, most, found) =
      (domain, w, key_at_rollout domain w rollouts i found.0, enough, most)

  run_chosen-IsAgreed :
      (policy : TtrlPolicy) (s : TtrlScheduler) (poll : Poll)
      (choice : Option (ℕ × String × String))
      → IsAgreed
          (sample_rollouts (take policy.k_rollouts poll.answers))
          (run_chosen select key policy s poll choice).0
  unfolding run_chosen
  run_chosen-IsAgreed policy s poll none = tt
  run_chosen-IsAgreed policy s poll (some (offset, prompt, domain)) =
      let rollouts = sample_rollouts (take policy.k_rollouts poll.answers) in
      label-IsAgreed domain rollouts (majority_from_keys (keys_of domain rollouts) 2)
        (majority_from_keys-Elects (keys_of domain rollouts) 2 (omega arith))

  -- Whatever is in the log and whatever the model answers: where a poll hands a text to
  -- `submit_train`, the text's key is a key that at least two of the sampled rollouts have, and
  -- that no other key outnumbers.
  pub maybe_run_one-IsAgreed :
      (policy : TtrlPolicy) (s : TtrlScheduler) (poll : Poll)
      → IsAgreed
          (sample_rollouts (take policy.k_rollouts poll.answers))
          (maybe_run_one select key policy s poll).0
  unfolding maybe_run_one
  maybe_run_one-IsAgreed policy s poll =
      run_chosen-IsAgreed policy s poll (pick_prompt select key policy s.seen poll.records)
