-- ===== src/Trajectory/Follow.antt =====
-- trainfer/trajectory.py: what the readers by offset give of the appended records.
use trainfer.Prelude.{
  ℕ, ◌+◌, ◌<◌, ◌≡◌, refl, sym, ap, ◌∙◌, Bool, true, Option, List, [], ◌∷◌, ◌++◌, length,
  length-append, drop, keep, ◌==◌, if_false, arith,
}
use trainfer.Trajectory.{Bytes, line_of, read_from, iter_with_offsets, append_all, tail_structured}
use trainfer.Trajectory.Lines.{IsJson, written, entries, read_written, append_all-written}

drop-append : (xs ys : Bytes) → drop (length xs) (xs ++ ys) ≡ ys
drop-append [] ys = refl
drop-append (x ∷ xs) ys = drop-append xs ys

keep-all : {A : Type 0} (xs : List A) → keep (λ x. true) xs ≡ xs
keep-all [] = refl
keep-all (x ∷ xs) = ap (λ r. x ∷ r) (keep-all xs)

abbrev pub concat : {A : Type 0} → List (List A) → List A
concat [] = []
concat (x ∷ xs) = x ++ concat xs

module _ {R : Type 0} (dump : R → Bytes) (parse : Bytes → Option R) where
  iter_with_offsets-written :
      (wanted : R → Bool) (file : Bytes) (rs : List R)
      → IsJson dump parse
      → iter_with_offsets parse wanted (file ++ written dump rs) (length file)
        ≡ keep (λ e. wanted e.1) (entries dump (length file) rs)
  unfolding iter_with_offsets
  iter_with_offsets-written wanted file rs json =
      let bytes = file ++ written dump rs in
      ap (read_from parse wanted (length bytes) (length file)) (drop-append file (written dump rs))
      ∙ read_written dump parse wanted (length bytes) (length file) rs json
          (omega (arith, length-append file (written dump rs)))

  -- Whatever the file holds: after appending records, reading from where it ended before gives the
  -- wanted ones among these records, in order, each with the offset that its append returned.
  pub append-iter_with_offsets :
      (wanted : R → Bool) (file : Bytes) (rs : List R)
      → IsJson dump parse
      → iter_with_offsets parse wanted (append_all dump file rs).1 (length file)
        ≡ keep (λ e. wanted e.1) (append_all dump file rs).0
  append-iter_with_offsets wanted file rs json =
      let all = append_all-written dump file rs in
      ap (λ (x : List (ℕ × R) × Bytes). iter_with_offsets parse wanted x.1 (length file)) all
      ∙ iter_with_offsets-written wanted file rs json
      ∙ ap (λ (x : List (ℕ × R) × Bytes). keep (λ e. wanted e.1) x.0) (sym all)

  -- A client that polls after each batch of appends, each time from the last poll's `next_offset`.
  abbrev pub follow : ℕ → Bytes → ℕ → List (List R) → List (ℕ × R)
  follow n file since [] = []
  follow n file since (batch ∷ batches) =
      let file' = (append_all dump file batch).1 in
      let tail = tail_structured parse file' n since in
      tail.events ++ follow n file' tail.next_offset batches

  poll-written :
      (n : ℕ) (file : Bytes) (rs : List R)
      → IsJson dump parse
      → 0 < length file
      → (tail_structured parse (file ++ written dump rs) n (length file)).events
        ≡ entries dump (length file) rs
  unfolding tail_structured
  poll-written n file rs json h =
      if_false {b = length file == 0} _ _ (ground arith)
      ∙ iter_with_offsets-written (λ r. true) file rs json
      ∙ keep-all (entries dump (length file) rs)

  next_offset_lem :
      (file : Bytes) (n since : ℕ) → (tail_structured parse file n since).next_offset ≡ length file
  unfolding tail_structured
  next_offset_lem file n since = refl

  entries-append :
      (pos : ℕ) (rs ss : List R)
      → entries dump pos (rs ++ ss)
        ≡ entries dump pos rs ++ entries dump (pos + length (written dump rs)) ss
  entries-append pos [] ss = ap (λ p. entries dump p ss) (omega arith)
  entries-append pos (r ∷ rs) ss =
      let line = line_of (dump r) in
      ap (λ es. (pos, r) ∷ es)
        (entries-append (pos + length line) rs ss
          ∙ ap (λ p. entries dump (pos + length line) rs ++ entries dump p ss)
              (omega (arith, length-append line (written dump rs))))

  follow-entries :
      (n : ℕ) (file : Bytes) (batches : List (List R))
      → IsJson dump parse
      → 0 < length file
      → follow n file (length file) batches ≡ entries dump (length file) (concat batches)
  follow-entries n file [] json h = refl
  follow-entries n file (batch ∷ batches) json h =
      let file' = file ++ written dump batch in
      let poll = λ (f : Bytes). tail_structured parse f n (length file) in
      ap
        (λ (x : List (ℕ × R) × Bytes).
          (poll x.1).events ++ follow n x.1 (poll x.1).next_offset batches)
        (append_all-written dump file batch)
      ∙ ap (λ es. es ++ follow n file' (poll file').next_offset batches)
          (poll-written n file batch json h)
      ∙ ap (λ since. entries dump (length file) batch ++ follow n file' since batches)
          (next_offset_lem file' n (length file))
      ∙ ap (λ es. entries dump (length file) batch ++ es)
          (follow-entries n file' batches json
              (omega (arith, h, length-append file (written dump batch)))
            ∙ ap (λ pos. entries dump pos (concat batches))
                (length-append file (written dump batch)))
      ∙ sym (entries-append (length file) batch (concat batches))

  -- On a log that is not empty, a client that polls with `tail_structured` from its end on, after
  -- each batch of appends from the last `next_offset`, is given every appended record once, in
  -- order, with the offset that its append returned, however many a batch holds.
  pub follow-append_all :
      (n : ℕ) (file : Bytes) (batches : List (List R))
      → IsJson dump parse
      → 0 < length file
      → follow n file (length file) batches ≡ (append_all dump file (concat batches)).0
  follow-append_all n file batches json h =
      follow-entries n file batches json h
      ∙ ap (λ (x : List (ℕ × R) × Bytes). x.0) (sym (append_all-written dump file (concat batches)))
