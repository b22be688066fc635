-- ===== src/Lexis/Minimal/Language.antt =====
-- Nodes that are not marked accept the same words.
use recursive_functions.Prelude.{
  ℕ, suc, ◌≡◌, ◌≢◌, ◌<◌, ◌≤◌, ◌⊎◌, inl, inr, List, [], ◌∷◌, Bool, true, false, arith, refl, length,
  get_elem?, get_elem?-some, get_elem?-none, All, Option, none, some, Bool-cases, ltb, ltb→lt, sym,
  ◌∙◌,
}
use recursive_functions.Lexis.Jump.{characters_count}
use recursive_functions.Lexis.Automaton.{Node}
use recursive_functions.Lexis.Subset.Language.{accepts}
use recursive_functions.Lexis.Minimal.{marked, jump_of, final_of}
use recursive_functions.Lexis.Minimal.Runs.{accepts-final_of, accepts-jump_of, accepts-no_jump}
use recursive_functions.Lexis.Minimal.Edges.{IsTotal}
use recursive_functions.Lexis.Minimal.Marking.{Differ}

pub jump_of-at :
    (nodes : List Node) (i s : ℕ) {node : Node} {jump : Option ℕ}
    → get_elem? nodes i ≡ some node
    → get_elem? node.jumps s ≡ some jump
    → jump_of nodes i s ≡ jump
unfolding jump_of
jump_of-at nodes i s e d = rw (jump_of, e, d) refl

pub final_of-at :
    (nodes : List Node) (i : ℕ) {node : Node}
    → get_elem? nodes i ≡ some node
    → final_of nodes i ≡ node.is_final
unfolding final_of
final_of-at nodes i e = rw (final_of, e) refl

pub All-at {ℓ κ} :
    {A : Type ℓ} (P : A → Type κ) (xs : List A)
    → ((i : ℕ) (a : A) → get_elem? xs i ≡ some a → P a)
    → All P xs
All-at P [] h = tt
All-at P (x ∷ xs) h = (h 0 x refl, All-at P xs (λ i. h (suc i)))

bool_same : (a b : Bool) → (a ≡ b) ⊎ (a ≢ b)
bool_same true true = inl refl
bool_same true false = inr (λ e. cc)
bool_same false true = inr (λ e. cc)
bool_same false false = inl refl

pub some_same : {a b : ℕ} → some a ≡ some b → a ≡ b
some_same e = cc

module _ (nodes : List Node) (total : IsTotal nodes) where
  pub no_jump : (a s : ℕ) → a < length nodes → characters_count ≤ s → jump_of nodes a s ≡ none
  unfolding jump_of
  no_jump a s ha h =
      let (node, e) = get_elem?-some nodes a ha in
      rw (jump_of, e, get_elem?-none node.jumps s (omega (arith, h, total.width a node e))) refl

  pub no_jump_at :
      (result : List Node) (c s : ℕ) {node : Node}
      → get_elem? result c ≡ some node
      → length node.jumps ≤ s
      → jump_of result c s ≡ none
  unfolding jump_of
  no_jump_at result c s {node} e h =
      rw (jump_of, e, get_elem?-none node.jumps s (omega (arith, h))) refl

  -- The marks when the loop is over.
  pub record IsMarked (m : List (List Bool)) : Type 0 where
    pub differ : (a b : ℕ) → marked m a b ≡ true → Differ nodes a b
    pub finals :
        (a b : ℕ)
        → a < length nodes
        → b < length nodes
        → final_of nodes a ≢ final_of nodes b
        → marked m a b ≡ true
    pub back :
        (a b s x y : ℕ)
        → a < length nodes
        → b < length nodes
        → s < characters_count
        → jump_of nodes a s ≡ some x
        → jump_of nodes b s ≡ some y
        → marked m x y ≡ true
        → marked m a b ≡ true

  module _ (m : List (List Bool)) (is_marked : IsMarked m) where
    -- Nodes that are not marked accept the same words.
    pub same_words :
        (w : List ℕ) (a b : ℕ)
        → a < length nodes
        → b < length nodes
        → marked m a b ≡ false
        → accepts nodes a w ≡ accepts nodes b w
    same_words [] a b ha hb u = elim (bool_same (final_of nodes a) (final_of nodes b)) [
      | inl e ↦ accepts-final_of nodes a ∙ e ∙ sym (accepts-final_of nodes b)
      | inr d ↦ let z = is_marked.finals a b ha hb d in absurd (cc)
    ]
    same_words (s ∷ w) a b ha hb u = elim (Bool-cases (ltb s characters_count)) [
      | inl l ↦
          let small = ltb→lt s characters_count l in
          let (x, ex, hx) = total.jump_in a s ha small in
          let (y, ey, hy) = total.jump_in b s hb small in
          elim (Bool-cases (marked m x y)) [
            | inl t ↦ let z = is_marked.back a b s x y ha hb small ex ey t in absurd (cc)
            | inr f ↦
                accepts-jump_of nodes a s w ex
                ∙ same_words w x y hx hy f
                ∙ sym (accepts-jump_of nodes b s w ey)
          ]
      | inr l ↦
          let h : characters_count ≤ s = ground arith in
          accepts-no_jump nodes a s w (no_jump a s ha h)
          ∙ sym (accepts-no_jump nodes b s w (no_jump b s hb h))
    ]
