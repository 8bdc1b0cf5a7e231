-- ===== src/Ttrl/Caps.antt =====
-- trainfer/ttrl_mv.py: the lifetime cap of a prompt, and how often it is chosen.
use trainfer.Prelude.{
  ℕ, ◌+◌, ◌≤◌, ◌<◌, ◌≡◌, refl, sym, ap, subst, String, Bool, true, false, Option, none, some, List,
  [], ◌∷◌, length, ltb, leb, ◌==◌, ==_iff, str_eq, ◌∙◌, if◌then◌else◌, if_elim, All, arith,
}
use trainfer.Ttrl.{
  TtrlPolicy, TtrlScheduler, Poll, burn, last_candidate, enqueue_label, claimed, candidates,
  pick_prompt, run_chosen, maybe_run_one, run_polls,
}

-- What is chosen is under the cap.
abbrev IsUnder : ℕ → (ℕ → ℕ) → ℕ × String × String → Type 0
IsUnder cap seen c = seen c.0 < cap

abbrev IsChoice : ℕ → (ℕ → ℕ) → Option (ℕ × String × String) → Type 0
IsChoice cap seen none = Unit
IsChoice cap seen (some c) = IsUnder cap seen c

claimed-All :
    (cap : ℕ) (seen : ℕ → ℕ) (offset : ℕ) (prompt : String) (domain : Option String)
    (rest : List (ℕ × String × String))
    → seen offset < cap
    → All (IsUnder cap seen) rest
    → All (IsUnder cap seen) (claimed offset prompt domain rest)
claimed-All cap seen offset prompt none rest h hs = hs
claimed-All cap seen offset prompt (some d) rest h hs = (h, hs)

last_candidate-IsChoice :
    (cap : ℕ) (seen : ℕ → ℕ) (cs : List (ℕ × String × String))
    → All (IsUnder cap seen) cs
    → IsChoice cap seen (last_candidate cs)
last_candidate-IsChoice cap seen [] h = tt
last_candidate-IsChoice cap seen (c ∷ []) h = h.0
last_candidate-IsChoice cap seen (c ∷ d ∷ cs) h = last_candidate-IsChoice cap seen (d ∷ cs) h.1

burn_count :
    (seen : ℕ → ℕ) (o offset : ℕ) → burn seen offset o ≡ seen o + (if o == offset then 1 else 0)
burn_count seen o offset = ground arith

-- What the vote leads to burns the offset once, on each of its branches.
enqueue_label-seen :
    (s : TtrlScheduler) (offset : ℕ) (accepted : Bool) (vote : Option (ℕ × String))
    → (enqueue_label s offset accepted vote).seen ≡ burn s.seen offset
enqueue_label-seen s offset accepted none = refl
enqueue_label-seen s offset true (some v) = refl
enqueue_label-seen s offset false (some v) = refl

-- 1 if the choice is of this offset, else 0.
abbrev pub is_of : ℕ → Option (ℕ × String × String) → ℕ
is_of offset none = 0
is_of offset (some c) = if offset == c.0 then 1 else 0

module _ (select : String → Option String) (key : String → String → Option String × Bool) where
  candidates-All :
      (cap : ℕ) (seen : ℕ → ℕ) (records : List (ℕ × String))
      → All (IsUnder cap seen) (candidates select key cap seen records)
  unfolding candidates
  candidates-All cap seen [] = tt
  candidates-All cap seen ((offset, prompt) ∷ records) =
      let rest = candidates-All cap seen records in
      if_elim (All (IsUnder cap seen)) (leb cap (seen offset)) _ _ (λ _. rest)
        (λ under.
          if_elim (All (IsUnder cap seen)) (str_eq prompt "") _ _ (λ _. rest)
            (λ _. claimed-All cap seen offset prompt (select prompt) _ (ground arith) rest))

  pick_prompt-IsChoice :
      (policy : TtrlPolicy) (seen : ℕ → ℕ) (records : List (ℕ × String))
      → IsChoice policy.max_per_prompt seen (pick_prompt select key policy seen records)
  unfolding pick_prompt
  pick_prompt-IsChoice policy seen records =
      let found = candidates select key policy.max_per_prompt seen records in
      if_elim (IsChoice policy.max_per_prompt seen) (ltb (length found) policy.min_prompts) _ _
        (λ _. tt)
        (λ _.
          last_candidate-IsChoice policy.max_per_prompt seen found
            (candidates-All policy.max_per_prompt seen records))

  -- At how many of the polls an offset is chosen, as a count of its own.
  unfoldable pub times_chosen : TtrlPolicy → TtrlScheduler → List Poll → ℕ → ℕ
  times_chosen policy s [] offset = 0
  times_chosen policy s (p ∷ ps) offset =
      is_of offset (pick_prompt select key policy s.seen p.records)
      + times_chosen policy (maybe_run_one select key policy s p).1 ps offset

  -- An offset that is chosen was under the cap.
  chosen_under :
      (cap : ℕ) (seen : ℕ → ℕ) (offset : ℕ) (choice : Option (ℕ × String × String))
      → IsChoice cap seen choice
      → seen offset ≤ cap
      → seen offset + is_of offset choice ≤ cap
  chosen_under cap seen offset none h le = omega arith
  chosen_under cap seen offset (some c) h le =
      if_elim (λ (n : ℕ). seen offset + n ≤ cap) (offset == c.0) _ _
        (λ hit. subst (λ o. seen o + 1 ≤ cap) (sym ((==_iff offset c.0).0 hit)) (omega (arith, h)))
        (λ _. omega arith)

  run_chosen-seen :
      (policy : TtrlPolicy) (s : TtrlScheduler) (poll : Poll)
      (choice : Option (ℕ × String × String)) (offset : ℕ)
      → (run_chosen select key policy s poll choice).1.seen offset
        ≡ s.seen offset + is_of offset choice
  unfolding run_chosen
  run_chosen-seen policy s poll none offset = omega arith
  run_chosen-seen policy s poll (some (chosen, prompt, domain)) offset =
      ap (λ f. f offset) (enqueue_label-seen _ chosen poll.accepted _)
      ∙ burn_count s.seen offset chosen

  maybe_run_one-seen :
      (policy : TtrlPolicy) (s : TtrlScheduler) (poll : Poll) (offset : ℕ)
      → (maybe_run_one select key policy s poll).1.seen offset
        ≡ s.seen offset + is_of offset (pick_prompt select key policy s.seen poll.records)
  unfolding maybe_run_one
  maybe_run_one-seen policy s poll offset =
      run_chosen-seen policy s poll (pick_prompt select key policy s.seen poll.records) offset

  -- Over any polls, whatever the model answers and whether or not `submit_train` raises, an offset is
  -- counted once for each poll that chooses it, and its earlier count and the polls that choose it
  -- stay within the cap together, if the earlier count did.
  pub times_chosen-IsCapped :
      (policy : TtrlPolicy) (s : TtrlScheduler) (polls : List Poll) (offset : ℕ)
      → s.seen offset ≤ policy.max_per_prompt
      → ((run_polls select key policy s polls).seen offset
          ≡ s.seen offset + times_chosen policy s polls offset)
        × (s.seen offset + times_chosen policy s polls offset ≤ policy.max_per_prompt)
  unfolding run_polls times_chosen
  times_chosen-IsCapped policy s [] offset h = (omega arith, omega arith)
  times_chosen-IsCapped policy s (p ∷ ps) offset h =
      let choice = pick_prompt select key policy s.seen p.records in
      let s' = (maybe_run_one select key policy s p).1 in
      let counted : s'.seen offset ≡ s.seen offset + is_of offset choice =
        maybe_run_one-seen policy s p offset in
      let under =
        chosen_under policy.max_per_prompt s.seen offset choice
          (pick_prompt-IsChoice policy s.seen p.records) h in
      let (later, within) =
        times_chosen-IsCapped policy s' ps offset (omega (arith, counted, under)) in
      (omega (arith, counted, later), omega (arith, counted, within))
