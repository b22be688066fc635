-- ===== src/Lexis/Subset/Storing.antt =====
-- Stored jumps, and the lookup of a set in the map.
use recursive_functions.Prelude.{
  ℕ, zero, suc, ◌≡◌, ◌<◌, inl, inr, List, [], ◌∷◌, true, Bool-cases, arith, refl, length, set,
  subst, none, some, get_elem?, get_elem?-set_self, get_elem?-set_ne, length-set, ap, sym, ◌∙◌,
}
use recursive_functions.Lexis.Automaton.{Node}
use recursive_functions.Lexis.Subset.{set_jump, find_set, set_eq}
use recursive_functions.Lexis.Subset.Moves.{SameSet, set_eq-SameSet}

-- A node before and after the jump of symbol s is stored in node `index`; k is its own number.
pub record IsUpdate (node node' : Node) (k index s target : ℕ) : Type 0 where
  pub same_final : node'.is_final ≡ node.is_final
  pub same_length : length node'.jumps ≡ length node.jumps
  pub stored : k ≡ index → s < length node.jumps → get_elem? node'.jumps s ≡ some (some target)
  pub others : (r : ℕ) → (k ≡ index → r ≡ s → ⊥) → get_elem? node'.jumps r ≡ get_elem? node.jumps r

pub length-set_jump :
    (nodes : List Node) (index s target : ℕ) → length (set_jump nodes index s target) ≡ length nodes
unfolding set_jump
length-set_jump [] index s target = refl
length-set_jump (node ∷ nodes) zero s target = refl
length-set_jump (node ∷ nodes) (suc index) s target = ap suc (length-set_jump nodes index s target)

pub get_elem?-set_jump :
    (nodes : List Node) (index s target k : ℕ) {node : Node}
    → get_elem? nodes k ≡ some node
    → (node' : Node) × (get_elem? (set_jump nodes index s target) k ≡ some node')
      × IsUpdate node node' k index s target
unfolding set_jump
get_elem?-set_jump [] index s target k e = absurd (cc)
get_elem?-set_jump (first ∷ nodes) zero s target zero {node} e =
    let same : first ≡ node = cc in
    (
      record { is_final = first.is_final; jumps = set first.jumps s (some target) },
      refl,
      record {
        same_final = ap (λ (n : Node). n.is_final) same;
        same_length =
            length-set first.jumps s (some target) ∙ ap (λ (n : Node). length n.jumps) same;
        stored = λ q h.
            get_elem?-set_self first.jumps s (some target)
              (subst (λ (n : Node). s < length n.jumps) (sym same) h);
        others = λ r h.
            get_elem?-set_ne first.jumps s r (some target) (λ q. h refl (sym q))
            ∙ ap (λ (n : Node). get_elem? n.jumps r) same;
      },
    )
get_elem?-set_jump (first ∷ nodes) zero s target (suc k) {node} e = (
  node,
  e,
  record {
    same_final = refl;
    same_length = refl;
    stored = λ q. absurd (omega arith);
    others = λ r h. refl;
  },
)
get_elem?-set_jump (first ∷ nodes) (suc index) s target zero {node} e = (
  node,
  e,
  record {
    same_final = refl;
    same_length = refl;
    stored = λ q. absurd (omega arith);
    others = λ r h. refl;
  },
)
get_elem?-set_jump (first ∷ nodes) (suc index) s target (suc k) {node} e =
    let (node', e', u) = get_elem?-set_jump nodes index s target k e in
    (
      node',
      e',
      record {
        same_final = u.same_final;
        same_length = u.same_length;
        stored = λ q. u.stored (omega (arith, q));
        others = λ r h. u.others r (λ q. h (ap suc q));
      },
    )

-- A set that the map has: an entry with the same members.
pub find_set-found :
    (entries : List (List ℕ × ℕ)) (S : List ℕ) {target : ℕ}
    → find_set entries S ≡ some target
    → (i : ℕ) × (T : List ℕ) × (get_elem? entries i ≡ some (T, target)) × SameSet T S
unfolding find_set
find_set-found [] S e = absurd (cc)
find_set-found ((T, target') ∷ entries) S {target} e = elim (Bool-cases (set_eq T S)) [
  | inl h ↦
      let q : target' ≡ target = ground (arith, e, h) in
      (0, T, ap (λ (x : ℕ). some (T, x)) q, (set_eq-SameSet T S).0 h)
  | inr h ↦
      let (i, U, there, same) = find_set-found entries S {target = target} (ground (arith, e, h)) in
      (suc i, U, there, same)
]

-- A set that the map does not have.
pub find_set-none :
    (entries : List (List ℕ × ℕ)) (S : List ℕ)
    → find_set entries S ≡ none
    → (i : ℕ) (T : List ℕ) (target : ℕ) → get_elem? entries i ≡ some (T, target)
    → SameSet T S
    → ⊥
unfolding find_set
find_set-none [] S e i T target h same = absurd (cc)
find_set-none ((U, u) ∷ entries) S e zero T target h same =
    let q : (U, u) ≡ (T, target) = cc in
    let t : set_eq U S ≡ true =
      ap (λ (p : List ℕ × ℕ). set_eq p.0 S) q ∙ (set_eq-SameSet T S).1 same in
    absurd (ground (arith, e, t))
find_set-none ((U, u) ∷ entries) S e (suc i) T target h same = elim (Bool-cases (set_eq U S)) [
  | inl t ↦ absurd (ground (arith, e, t))
  | inr f ↦ find_set-none entries S (ground (arith, e, f)) i T target h same
]
