-- ===== src/Trajectory/Lines.antt =====
-- trainfer/trajectory.py: reading back the lines of dumped records.
use trainfer.Prelude.{
  ℕ, zero, suc, ◌+◌, ◌≤◌, ◌≡◌, refl, sym, ap, ◌∙◌, Bool, false, ◌&&◌, Option, some, List, [], ◌∷◌,
  ◌++◌, length, length-append, keep, ◌==◌, if◌then◌else◌, if_false, All, arith,
}
use mathlib.Core.List.{append_assoc, append-nil}
use trainfer.Trajectory.{
  Bytes, is_space, is_nil, lstrip, rstrip, strip, before, readline, line_of, visit, parse_stripped,
  read_from, append_raw, append_all,
}

-- What the log relies on of the json library: a dumped object stands in braces and holds no raw
-- newline, and is read back as what was dumped.
pub record IsJson {R : Type 0} (dump : R → Bytes) (parse : Bytes → Option R) : Type 0 where
  pub body : R → Bytes
  pub braces : (r : R) → dump r ≡ 123 ∷ body r ++ 125 ∷ []
  pub one_line : (r : R) → All (λ b. (b == 10) ≡ false) (dump r)
  pub round : (r : R) → parse (dump r) ≡ some r

readline_lem :
    (line rest : Bytes)
    → All (λ b. (b == 10) ≡ false) line
    → readline (line ++ 10 ∷ rest) ≡ (line ++ 10 ∷ [], rest)
unfolding readline
readline_lem [] rest h = refl
readline_lem (b ∷ bs) rest h = if_false _ _ h.0 ∙ ap (before b) (readline_lem bs rest h.1)

rstrip_closed : (inner : Bytes) → rstrip (inner ++ 125 ∷ 10 ∷ []) ≡ inner ++ 125 ∷ []
unfolding rstrip
rstrip_closed [] = refl
rstrip_closed (b ∷ bs) = rw (rstrip_closed bs) (kept b bs)
  where
    kept :
        (b : ℕ) (bs : Bytes)
        → (if is_nil (bs ++ 125 ∷ []) && is_space b then [] else b ∷ bs ++ 125 ∷ [])
          ≡ b ∷ bs ++ 125 ∷ []
    kept b [] = refl
    kept b (c ∷ cs) = refl

strip_object :
    (inner : Bytes) → strip ((123 ∷ inner ++ 125 ∷ []) ++ 10 ∷ []) ≡ 123 ∷ inner ++ 125 ∷ []
unfolding strip lstrip
strip_object inner =
    ap (λ bs. rstrip (123 ∷ bs)) (append_assoc inner (125 ∷ []) (10 ∷ []))
    ∙ rstrip_closed (123 ∷ inner)

length-line_of : (bs : Bytes) → length (line_of bs) ≡ suc (length bs)
length-line_of bs = omega (arith, length-append bs (10 ∷ []))

module _ {R : Type 0} (dump : R → Bytes) where
  -- The bytes of the lines of records, and where in a file that goes on at `pos` they begin.
  abbrev pub written : List R → Bytes
  written [] = []
  written (r ∷ rs) = line_of (dump r) ++ written rs

  abbrev pub entries : ℕ → List R → List (ℕ × R)
  entries pos [] = []
  entries pos (r ∷ rs) = (pos, r) ∷ entries (pos + length (line_of (dump r))) rs

  length-written :
      (r : R) (rs : List R)
      → length (written (r ∷ rs)) ≡ suc (length (dump r)) + length (written rs)
  length-written r rs =
      omega (arith, length-append (line_of (dump r)) (written rs), length-line_of (dump r))

  append_all_first :
      (file : Bytes) (r : R) (rs : List R)
      → append_all dump file (r ∷ rs) ≡ (
        (length file, r) ∷ (append_all dump (file ++ line_of (dump r)) rs).0,
        (append_all dump (file ++ line_of (dump r)) rs).1,
      )
  unfolding append_all append_raw
  append_all_first file r rs = refl

  pub append_all-written :
      (file : Bytes) (rs : List R)
      → append_all dump file rs ≡ (entries (length file) rs, file ++ written rs)
  unfolding append_raw
  append_all-written file [] = unfold append_all in ap (λ f. ([], f)) (sym (append-nil file))
  append_all-written file (r ∷ rs) =
      let line = line_of (dump r) in
      append_all_first file r rs
      ∙ ap (λ (x : List (ℕ × R) × Bytes). ((length file, r) ∷ x.0, x.1))
          (append_all-written (file ++ line) rs
            ∙ ap (λ pos. (entries pos rs, (file ++ line) ++ written rs)) (length-append file line)
            ∙ ap (λ f. (entries (length file + length line) rs, f))
                (append_assoc file line (written rs)))

module _ {R : Type 0} (dump : R → Bytes) (parse : Bytes → Option R) (wanted : R → Bool) where
  read_line :
      (n pos : ℕ) (line rest : Bytes)
      → All (λ b. (b == 10) ≡ false) line
      → read_from parse wanted (suc n) pos (line ++ 10 ∷ rest)
        ≡ visit wanted pos
            (parse_stripped parse (strip (line_of line)))
            (read_from parse wanted n (pos + length (line_of line)) rest)
  unfolding read_from
  read_line n pos [] rest h =
      ap
        (λ (p : Bytes × Bytes).
          visit wanted pos (parse_stripped parse (strip p.0))
            (read_from parse wanted n (pos + length p.0) p.1))
        (readline_lem [] rest h)
  read_line n pos (b ∷ bs) rest h =
      ap
        (λ (p : Bytes × Bytes).
          visit wanted pos (parse_stripped parse (strip p.0))
            (read_from parse wanted n (pos + length p.0) p.1))
        (readline_lem (b ∷ bs) rest h)

  parse_line :
      IsJson dump parse → (r : R) → parse_stripped parse (strip (line_of (dump r))) ≡ some r
  parse_line json r =
      ap (λ d. parse_stripped parse (strip (line_of d))) (json.braces r)
      ∙ ap (parse_stripped parse) (strip_object (json.body r))
      ∙ ap parse (sym (json.braces r))
      ∙ json.round r

  pub read_written :
      (n pos : ℕ) (rs : List R)
      → IsJson dump parse
      → length (written dump rs) ≤ n
      → read_from parse wanted n pos (written dump rs)
        ≡ keep (λ e. wanted e.1) (entries dump pos rs)
  read_written zero pos [] json h = unfold read_from in refl
  read_written (suc n) pos [] json h = unfold read_from in refl
  read_written zero pos (r ∷ rs) json h = absurd (omega (arith, h, length-written dump r rs))
  read_written (suc n) pos (r ∷ rs) json h =
      ap (read_from parse wanted (suc n) pos) (append_assoc (dump r) (10 ∷ []) (written dump rs))
      ∙ read_line n pos (dump r) (written dump rs) (json.one_line r)
      ∙ ap
          (λ o.
            visit wanted pos o
              (read_from parse wanted n (pos + length (line_of (dump r))) (written dump rs)))
          (parse_line json r)
      ∙ ap (λ es. if wanted r then (pos, r) ∷ es else es)
          (read_written n (pos + length (line_of (dump r))) rs json
            (omega (arith, h, length-written dump r rs)))
