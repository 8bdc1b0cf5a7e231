-- ===== src/Trajectory.antt =====
-- trainfer/trajectory.py: the append-only log of records, one line each, and its readers by byte
-- offset. The file is the list of its bytes. The json library is an argument: `dump` stands for
-- `json.dumps(...).encode()`, `parse` for `json.loads`, which fails with `none`. What a record's
-- "kind" is, is an argument `kind`; `kinds` holds the test that it is among the wanted ones.
pub mod Lines
pub mod Follow
use trainfer.Prelude.{
  ℕ, zero, suc, ◌+◌, ◌-◌, Bool, true, false, ◌&&◌, ◌||◌, Option, none, some, List, [], ◌∷◌, ◌++◌,
  length, drop, keep, leb, ◌==◌, if◌then◌else◌,
}

abbrev pub Bytes : Type 0
Bytes = List ℕ

abbrev newline : ℕ
newline = 10

-- bytes.strip takes the ASCII whitespace away
abbrev pub is_space : ℕ → Bool
is_space b = b == 32 || (leb 9 b && leb b 13)

abbrev pub is_nil {ℓ} : {A : Type ℓ} → List A → Bool
is_nil [] = true
is_nil (_ ∷ _) = false

unfoldable pub lstrip : Bytes → Bytes
lstrip [] = []
lstrip (b ∷ bs) = let rest = lstrip bs in if is_space b then rest else b ∷ bs

unfoldable pub rstrip : Bytes → Bytes
rstrip [] = []
rstrip (b ∷ bs) = let rest = rstrip bs in if is_nil rest && is_space b then [] else b ∷ rest

unfoldable pub strip : Bytes → Bytes
strip line = rstrip (lstrip line)

abbrev pub before : ℕ → Bytes × Bytes → Bytes × Bytes
before b (line, rest) = (b ∷ line, rest)

-- A line with its newline, and what stands after it.
unfoldable pub readline : Bytes → Bytes × Bytes
readline [] = ([], [])
readline (b ∷ bs) =
    let later = before b (readline bs) in if b == newline then (b ∷ [], bs) else later

abbrev pub line_of : Bytes → Bytes
line_of dumped = dumped ++ newline ∷ []

-- A list's last n items; a slice [-0:] is the whole.
abbrev pub last_items {ℓ} : {A : Type ℓ} → ℕ → List A → List A
last_items zero items = items
last_items (suc n) items = drop (length items - suc n) items

pub record Tail (R : Type 0) : Type 0 where
  pub events : List (ℕ × R)
  pub next_offset : ℕ
  pub total_size : ℕ

module _ {R : Type 0} where
  abbrev pub visit : (R → Bool) → ℕ → Option R → List (ℕ × R) → List (ℕ × R)
  visit wanted pos none rest = rest
  visit wanted pos (some r) rest = if wanted r then (pos, r) ∷ rest else rest

  abbrev pub parse_stripped : (Bytes → Option R) → Bytes → Option R
  parse_stripped parse [] = none
  parse_stripped parse (b ∷ bs) = parse (b ∷ bs)

  -- The loop of `iter_with_offsets` from position `pos`; each round reads a byte at least.
  unfoldable pub read_from : (Bytes → Option R) → (R → Bool) → ℕ → ℕ → Bytes → List (ℕ × R)
  read_from parse wanted zero pos bs = []
  read_from parse wanted (suc n) pos [] = []
  read_from parse wanted (suc n) pos (b ∷ bs) =
      let (line, rest) = readline (b ∷ bs) in
      visit wanted pos (parse_stripped parse (strip line))
        (read_from parse wanted n (pos + length line) rest)

  unfoldable pub iter_with_offsets : (Bytes → Option R) → (R → Bool) → Bytes → ℕ → List (ℕ × R)
  iter_with_offsets parse wanted file since_offset =
      read_from parse wanted (length file) since_offset (drop since_offset file)

  unfoldable pub append_raw : (R → Bytes) → Bytes → R → ℕ × Bytes
  append_raw dump file payload = (length file, file ++ line_of (dump payload))

  -- Several calls of `append_raw`, with the offsets that they return.
  unfoldable pub append_all : (R → Bytes) → Bytes → List R → List (ℕ × R) × Bytes
  append_all dump file [] = ([], file)
  append_all dump file (r ∷ rs) =
      let (offset, file') = append_raw dump file r in
      let (offsets, file'') = append_all dump file' rs in ((offset, r) ∷ offsets, file'')

  unfoldable pub tail_structured : (Bytes → Option R) → Bytes → ℕ → ℕ → Tail R
  tail_structured parse file n since_offset =
      let items = iter_with_offsets parse (λ r. true) file since_offset in
      record {
        events = if since_offset == 0 then last_items n items else items;
        next_offset = length file;
        total_size = length file;
      }
