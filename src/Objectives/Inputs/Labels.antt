-- ===== src/Objectives/Inputs/Labels.antt =====
-- trainfer/objectives/_utils.py: which tokens the labels and the target positions supervise.
use trainfer.Prelude.{
  ℕ, zero, suc, ◌+◌, ◌≤◌, ◌≡◌, refl, sym, ap, subst, ◌∙◌, ◌⊎◌, inl, inr, Bool, Option, none, some,
  List, [], ◌∷◌, ◌++◌, map, length, take, drop, ltb, arith, if◌then◌else◌, if_elim, length-append,
  ltb→lt,
}
use trainfer.Objectives.Inputs.{
  repeat, prefix_length, extended, build_chat_inputs, positions_from, row_positions,
}
use trainfer.Objectives.Inputs.Boundary.{
  length-take_within, take_all, length-drop, length-map, length-repeat, IsMasked,
  prefix_length-IsMasked, masked_within,
}

-- The labels of a chat whose first tokens are masked.
abbrev pub masked_labels : ℕ → List ℕ → List (Option ℕ)
masked_labels masked full_ids = repeat masked none ++ map some (drop masked full_ids)

length-masked_labels :
    (masked : ℕ) (full_ids : List ℕ)
    → masked ≤ length full_ids
    → length (masked_labels masked full_ids) ≡ length full_ids
length-masked_labels masked full_ids h =
    length-append (repeat masked none) (map some (drop masked full_ids))
    ∙ omega (
      arith,
      length-repeat {A = Option ℕ} masked none,
      length-map {B = Option ℕ} some (drop masked full_ids),
      length-drop masked full_ids h,
    )

-- Cutting and extending the labels changes nothing.
settled :
    (masked : ℕ) (full_ids : List ℕ)
    → masked ≤ length full_ids
    → extended (take (length full_ids) (masked_labels masked full_ids)) full_ids
      ≡ masked_labels masked full_ids
settled masked full_ids h =
    let labels = masked_labels masked full_ids in
    let same = length-masked_labels masked full_ids h in
    let whole = take_all (length full_ids) labels (omega (arith, same)) in
    ap (λ l. extended l full_ids) whole
    ∙ if_elim (λ r. r ≡ labels) (ltb (length labels) (length full_ids)) _ _
        (λ short. absurd (omega (arith, same, ltb→lt (length labels) (length full_ids) short)))
        (λ _. refl)

prompt_length :
    (full_ids prompt_ids : List ℕ)
    → let n = length (
        if ltb (length full_ids) (length prompt_ids)
        then take (length full_ids) prompt_ids
        else prompt_ids) in
      (n ≤ length full_ids)
      × (n ≤ length prompt_ids)
      × ((n ≡ length full_ids) ⊎ (n ≡ length prompt_ids))
prompt_length full_ids prompt_ids =
    if_elim
      (λ r.
        (length r ≤ length full_ids)
        × (length r ≤ length prompt_ids)
        × ((length r ≡ length full_ids) ⊎ (length r ≡ length prompt_ids)))
      (ltb (length full_ids) (length prompt_ids)) _ _
      (λ h.
        let lt = ltb→lt (length full_ids) (length prompt_ids) h in
        let e = length-take_within (length full_ids) prompt_ids (omega arith) in
        (omega arith, omega arith, inl e))
      (λ h. (ground arith, omega arith, inr refl))

-- The numbers from one on.
abbrev pub count_up : ℕ → ℕ → List ℕ
count_up at zero = []
count_up at (suc n) = at ∷ count_up (suc at) n

positions_from-some :
    (at : ℕ) (ids : List ℕ) → positions_from at (map some ids) ≡ (count_up at (length ids), ids)
unfolding positions_from
positions_from-some at [] = refl
positions_from-some at (id ∷ ids) =
    ap (λ (r : List ℕ × List ℕ). (at ∷ r.0, id ∷ r.1)) (positions_from-some (suc at) ids)

positions_from-masked :
    (at n : ℕ) (labels : List (Option ℕ))
    → positions_from at (repeat n none ++ labels) ≡ positions_from (n + at) labels
unfolding positions_from
positions_from-masked at zero labels = ap (λ k. positions_from k labels) (omega arith)
positions_from-masked at (suc n) labels =
    positions_from-masked (suc at) n labels ∙ ap (λ k. positions_from k labels) (omega arith)

masked_positions :
    (n : ℕ) (full_ids : List ℕ)
    → row_positions (masked_labels (suc n) full_ids)
      ≡ (count_up n (length (drop (suc n) full_ids)), drop (suc n) full_ids)
masked_positions n full_ids =
    let ids = drop (suc n) full_ids in
    positions_from-masked 0 n (map some ids)
    ∙ ap (λ k. positions_from k (map some ids)) (omega arith)
    ∙ positions_from-some n ids

-- The row of a chat is its tokens up to the limit, with as many labels and attention marks. The labels
-- mask the prompt, as far as the row goes, and with a `span_prefix` all up to the first later point at
-- which the decoded answer ends in it, if there is one; all the tokens after that are their own labels.
-- And if any token is masked, the target positions are those just before the first unmasked token and
-- on, and the target tokens are the unmasked ones.
pub build_chat_inputs-Masks :
    (ends : Option (List ℕ → Bool)) (max_len : ℕ) (prompt_ids chat_ids : List ℕ)
    → let row = build_chat_inputs ends max_len prompt_ids chat_ids in
      let full_ids = take max_len chat_ids in
      (row.input_ids ≡ full_ids)
      × (length row.labels ≡ length full_ids)
      × (length row.attention_mask ≡ length full_ids)
      × ((n masked : ℕ) × ((n ≤ length prompt_ids)
            × ((n ≡ length full_ids) ⊎ (n ≡ length prompt_ids))
            × IsMasked ends n full_ids masked
            × (n ≤ masked)
            × (masked ≤ length full_ids)
            × (row.labels ≡ masked_labels masked full_ids)
            × ((before : ℕ)
                → masked ≡ suc before
                → row_positions row.labels
                  ≡ (count_up before (length (drop masked full_ids)), drop masked full_ids))))
unfolding build_chat_inputs
build_chat_inputs-Masks ends max_len prompt_ids chat_ids =
    let full_ids = take max_len chat_ids in
    let n = length (
      if ltb (length full_ids) (length prompt_ids)
      then take (length full_ids) prompt_ids
      else prompt_ids) in
    let masked = prefix_length ends n full_ids in
    let (in_row, in_prompt, whole) = prompt_length full_ids prompt_ids in
    let is_masked = prefix_length-IsMasked ends n full_ids in
    let (at_least, at_most) = masked_within ends n masked full_ids in_row is_masked in
    let labels = settled masked full_ids at_most in
    (
      refl,
      ap length labels ∙ length-masked_labels masked full_ids at_most,
      length-repeat (length full_ids) 1,
      (
        n,
        masked,
        (
          in_prompt,
          whole,
          is_masked,
          at_least,
          at_most,
          labels,
          λ before e.
              ap row_positions labels
              ∙ subst
                  (λ k.
                    row_positions (masked_labels k full_ids)
                    ≡ (count_up before (length (drop k full_ids)), drop k full_ids))
                  (sym e) (masked_positions before full_ids),
        ),
      ),
    )
