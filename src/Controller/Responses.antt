-- ===== src/Controller/Responses.antt =====
-- trainfer/controller.py: the response index, an OrderedDict of the answers that feedback may refer
-- to, with at most `cap` entries (`_RESPONSE_INDEX_CAP`). The list holds the oldest entry first.
pub mod Recent
use trainfer.Prelude.{
  ℕ, String, Bool, true, false, Option, none, some, List, [], ◌∷◌, length, ltb, str_eq,
  if◌then◌else◌,
}
use trainfer.Controller.Feedback.{Prior}

abbrev pub ResponseIndex : Type 0
ResponseIndex = List (String × Prior)

-- A key that is there keeps its place.
unfoldable pub set_item : String → Prior → ResponseIndex → ResponseIndex
set_item rid r [] = (rid, r) ∷ []
set_item rid r ((k, v) ∷ es) =
    let rest = set_item rid r es in if str_eq k rid then (k, r) ∷ es else (k, v) ∷ rest

unfoldable pub get_item : String → ResponseIndex → Option Prior
get_item rid [] = none
get_item rid ((k, v) ∷ es) = let later = get_item rid es in if str_eq k rid then some v else later

-- while len(index) > cap: index.popitem(last=False)
unfoldable pub evict : ℕ → ResponseIndex → ResponseIndex
evict cap [] = []
evict cap (e ∷ es) = let rest = evict cap es in if ltb cap (length (e ∷ es)) then rest else e ∷ es

unfoldable pub remember_response : ℕ → String → Prior → ResponseIndex → ResponseIndex
remember_response cap rid r index = evict cap (set_item rid r index)
