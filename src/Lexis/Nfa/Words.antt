-- ===== src/Lexis/Nfa/Words.antt =====
-- The words of a regular expression, by its structure and with no automaton.
use recursive_functions.Prelude.{ℕ, ◌≡◌, ◌≢◌, ◌<◌, ◌⊎◌, List, [], ◌∷◌, ◌++◌, true}
use recursive_functions.Lexis.Jump.{characters_count}
use recursive_functions.Lexis.Regex.{
  RegexNode, symbol_node, concatenation_node, or_node, star_node, plus_node, match_at,
}

abbrev pub Concatenation : (List ℕ → Type 0) → (List ℕ → Type 0) → List ℕ → Type 0
Concatenation L M w = (u : List ℕ) × (v : List ℕ) × (w ≡ u ++ v) × L u × M v

-- A sequence of words of L.
pub data Repeated (L : List ℕ → Type 0) : List ℕ → Type 0 where
  no_more : {w : List ℕ} → w ≡ [] → Repeated L w
  one_more : {w : List ℕ} (u v : List ℕ) → w ≡ u ++ v → L u → Repeated L v → Repeated L w

-- Symbol 0 stands for the end of the file, and no expression matches it.
abbrev pub Matches : RegexNode → List ℕ → Type 0
Matches (symbol_node match) w =
    (c : ℕ) × (w ≡ c ∷ []) × (c ≢ 0) × (c < characters_count) × (match_at match c ≡ true)
Matches (concatenation_node left right) w = Concatenation (Matches left) (Matches right) w
Matches (or_node left right) w = Matches left w ⊎ Matches right w
Matches (star_node child) w = Repeated (Matches child) w
Matches (plus_node child) w = Concatenation (Matches child) (Repeated (Matches child)) w
