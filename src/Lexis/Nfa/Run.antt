-- ===== src/Lexis/Nfa/Run.antt =====
-- Runs of a nondeterministic automaton: its jumps, its final nodes, and the words it accepts.
use recursive_functions.Prelude.{ℕ, ◌≡◌, ◌<◌, ◌⊎◌, List, [], ◌∷◌, true}
use recursive_functions.Lexis.Jump.{characters_count}
use recursive_functions.Lexis.Nfa.{NfaNode, empty_jump}

abbrev pub HasJump : List (ℕ × ℕ) → ℕ → ℕ → Type 0
HasJump [] s b = ⊥
HasJump (jump ∷ jumps) s b = ((jump.0 ≡ s) × (jump.1 ≡ b)) ⊎ HasJump jumps s b

-- A jump with symbol s from the node at a to the node at b.
abbrev pub Jumps : List NfaNode → ℕ → ℕ → ℕ → Type 0
Jumps [] a s b = ⊥
Jumps (node ∷ nodes) a s b = ((node.address ≡ a) × HasJump node.jumps s b) ⊎ Jumps nodes a s b

abbrev pub Final : List NfaNode → ℕ → Type 0
Final [] a = ⊥
Final (node ∷ nodes) a = ((node.address ≡ a) × (node.is_final ≡ true)) ⊎ Final nodes a

-- From a, some run over w ends in a final node.
pub data Accepted (J : ℕ → ℕ → ℕ → Type 0) (F : ℕ → Type 0) : ℕ → List ℕ → Type 0 where
  stop : {a : ℕ} {w : List ℕ} → F a → w ≡ [] → Accepted J F a w
  empty : {a : ℕ} {w : List ℕ} (b : ℕ) → J a empty_jump b → Accepted J F b w → Accepted J F a w
  step :
      {a : ℕ} {w : List ℕ} (s b : ℕ) (v : List ℕ)
      → w ≡ s ∷ v
      → s < characters_count
      → J a s b
      → Accepted J F b v
      → Accepted J F a w

abbrev pub Accepts : List NfaNode → ℕ → List ℕ → Type 0
Accepts nodes = Accepted (Jumps nodes) (Final nodes)
