-- ===== src/Tests/LogRuns.antt =====
-- trainfer/trajectory.py: a log of numbers, each dumped as so many ones in braces.
use trainfer.Prelude.{
  ℕ, zero, suc, ◌<◌, ◌≡◌, refl, ap, true, false, Option, some, [], ◌∷◌, ◌++◌, length, ◌==◌,
  if◌then◌else◌, All, arith,
}
use trainfer.Trajectory.{
  Bytes, append_all, append_raw, iter_with_offsets, read_from, readline, strip, lstrip, rstrip,
}
use trainfer.Trajectory.Lines.{IsJson}
use trainfer.Trajectory.Follow.{concat, follow, follow-append_all}

abbrev ones : ℕ → Bytes
ones zero = []
ones (suc n) = 49 ∷ ones n

abbrev dump : ℕ → Bytes
dump n = 123 ∷ ones n ++ 125 ∷ []

abbrev count_ones : Bytes → ℕ
count_ones [] = 0
count_ones (b ∷ bs) = let n = count_ones bs in if b == 49 then suc n else n

abbrev parse : Bytes → Option ℕ
parse bs = some (count_ones bs)

count_back : (n : ℕ) → count_ones (ones n ++ 125 ∷ []) ≡ n
count_back zero = refl
count_back (suc n) = ap suc (count_back n)

plain : (n : ℕ) → All (λ b. (b == 10) ≡ false) (ones n ++ 125 ∷ [])
plain zero = (refl, tt)
plain (suc n) = (refl, plain n)

json : IsJson dump parse
json = record {
  body = ones;
  braces = λ n. refl;
  one_line = λ n. (refl, plain n);
  round = λ n. ap some (count_back n);
}

abbrev log : Bytes
log = dump 2 ++ 10 ∷ []

read_back :
    iter_with_offsets parse (λ n. true) (append_all dump log (0 ∷ 3 ∷ [])).1 5
    ≡ (5, 0) ∷ (8, 3) ∷ []
unfolding iter_with_offsets append_all append_raw read_from readline strip lstrip rstrip
read_back = refl

log_full : 0 < length log
log_full = omega arith

follow-append_all_example :
    follow dump parse 1 log (length log) ((0 ∷ 3 ∷ []) ∷ [] ∷ (1 ∷ []) ∷ [])
    ≡ (append_all dump log (concat ((0 ∷ 3 ∷ []) ∷ [] ∷ (1 ∷ []) ∷ []))).0
follow-append_all_example =
    follow-append_all dump parse 1 log ((0 ∷ 3 ∷ []) ∷ [] ∷ (1 ∷ []) ∷ []) json log_full
