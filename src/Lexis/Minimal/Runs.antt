-- ===== src/Lexis/Minimal/Runs.antt =====
-- Runs of a deterministic automaton by its jumps.
use recursive_functions.Prelude.{
  ℕ, ◌≡◌, List, [], ◌∷◌, Bool, false, refl, get_elem?, Option, none, some, ap, ◌∙◌,
}
use recursive_functions.Lexis.Automaton.{Node}
use recursive_functions.Lexis.Subset.Language.{accepts}
use recursive_functions.Lexis.Minimal.{jump_of, final_of}

pub accepts-final_of : (nodes : List Node) (k : ℕ) → accepts nodes k [] ≡ final_of nodes k
unfolding accepts final_of
accepts-final_of nodes k = refl

-- A run on no node, or with no jump, rejects.
next_accepts : List Node → List ℕ → Option ℕ → Bool
next_accepts nodes w none = false
next_accepts nodes w (some t) = accepts nodes t w

accepts-next :
    (nodes : List Node) (k s : ℕ) (w : List ℕ)
    → accepts nodes k (s ∷ w) ≡ next_accepts nodes w (jump_of nodes k s)
unfolding accepts next_accepts jump_of
accepts-next nodes k s w = by_node (get_elem? nodes k)
  where
    by_jump :
        (o : Option (Option ℕ))
        → (elim o [ none ↦ false | some none ↦ false | some (some t) ↦ accepts nodes t w ])
          ≡ next_accepts nodes w (elim o [ none ↦ none | some jump ↦ jump ])
    by_jump none = refl
    by_jump (some none) = refl
    by_jump (some (some t)) = refl

    by_node :
        (o : Option Node)
        → (elim o [
          | none ↦ false
          | some node ↦ elim (get_elem? node.jumps s) [
            | none ↦ false
            | some none ↦ false
            | some (some t) ↦ accepts nodes t w
          ]
        ])
          ≡ next_accepts nodes w (elim o [
            | none ↦ none
            | some node ↦ elim (get_elem? node.jumps s) [ none ↦ none | some jump ↦ jump ]
          ])
    by_node none = refl
    by_node (some node) = by_jump (get_elem? node.jumps s)

pub accepts-jump_of :
    (nodes : List Node) (k s : ℕ) (w : List ℕ) {t : ℕ}
    → jump_of nodes k s ≡ some t
    → accepts nodes k (s ∷ w) ≡ accepts nodes t w
unfolding next_accepts
accepts-jump_of nodes k s w e = accepts-next nodes k s w ∙ ap (next_accepts nodes w) e

pub accepts-no_jump :
    (nodes : List Node) (k s : ℕ) (w : List ℕ)
    → jump_of nodes k s ≡ none
    → accepts nodes k (s ∷ w) ≡ false
unfolding next_accepts
accepts-no_jump nodes k s w e = accepts-next nodes k s w ∙ ap (next_accepts nodes w) e
