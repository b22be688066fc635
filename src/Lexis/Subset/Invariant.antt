-- ===== src/Lexis/Subset/Invariant.antt =====
-- The state of the subset construction: its nodes stand for the sets of the map, and the jumps that are
-- stored lead where the sets lead.
use recursive_functions.Prelude.{
  ℕ, ◌≡◌, ◌<◌, inl, inr, List, [], ◌∷◌, ◌++◌, Bool, true, arith, length, contains, Distinct, Subset,
  get_elem?, Option, some, sym, subst, ap, ◌∙◌, get_elem?-snoc, get_elem?-append_left,
  get_elem?-append_at, length-snoc, length-replicate,
}
use recursive_functions.Lexis.Jump.{characters_count}
use recursive_functions.Lexis.Automaton.{Node}
use recursive_functions.Lexis.Nfa.{NfaNode, empty_jump}
use recursive_functions.Lexis.Nfa.Run.{Jumps, Final}
use recursive_functions.Lexis.EmptyJumps.Lookup.{addresses}
use recursive_functions.Lexis.EmptyJumps.Closing.{IsClosure}
use recursive_functions.Lexis.Subset.{new_node}
use recursive_functions.Lexis.Subset.Moves.{Moves, SameSet}
use recursive_functions.Lexis.Subset.Bound.{Different}

abbrev pub Entries : Type 0
Entries = List (List ℕ × ℕ)

module _ (automaton : List NfaNode) where
  -- A set of nodes that is closed under empty jumps.
  pub record IsClosed (S : List ℕ) : Type 0 where
    pub unique : Distinct S
    pub nodes_only : Subset S (addresses automaton)
    pub closed :
        (a b : ℕ) → contains S a ≡ true → Jumps automaton a empty_jump b → contains S b ≡ true

  -- The flag of a new node says whether a node of its set is final.
  pub record Fits (S : List ℕ) (node : Node) : Type 0 where
    pub width : length node.jumps ≡ characters_count
    pub final_found : (a : ℕ) → contains S a ≡ true → Final automaton a → node.is_final ≡ true
    pub final_true : node.is_final ≡ true → (a : ℕ) × (contains S a ≡ true) × Final automaton a

  -- The jump of symbol s from node k is stored, and leads where the set S leads.
  pub record Edge (nodes : List Node) (entries : Entries) (k s : ℕ) (S : List ℕ) : Type 0 where
    pub node : Node
    pub target_set : List ℕ
    pub target : ℕ
    pub node_at : get_elem? nodes k ≡ some node
    pub jump_at : get_elem? node.jumps s ≡ some (some target)
    pub target_at : get_elem? entries target ≡ some (target_set, target)
    pub moves : Moves automaton S s target_set

  -- D holds of the nodes and symbols whose jumps are stored.
  pub record IsPartial (D : ℕ → ℕ → Type 0) (nodes : List Node) (entries : Entries) : Type 0 where
    pub sized : length nodes ≡ length entries
    pub numbered : (k i : ℕ) (S : List ℕ) → get_elem? entries k ≡ some (S, i) → i ≡ k
    pub is_closed : (k i : ℕ) (S : List ℕ) → get_elem? entries k ≡ some (S, i) → IsClosed S
    pub fits :
        (k i : ℕ) (S : List ℕ)
        → get_elem? entries k ≡ some (S, i)
        → (node : Node) × (get_elem? nodes k ≡ some node) × Fits S node
    pub known : (k s : ℕ) → D k s → k < length entries
    pub stored :
        (k s : ℕ) (S : List ℕ)
        → D k s
        → get_elem? entries k ≡ some (S, k)
        → Edge nodes entries k s S
    pub different : Different entries

  pub IsPartial-less :
      (D D' : ℕ → ℕ → Type 0) (nodes : List Node) (entries : Entries)
      → ((k s : ℕ) → D' k s → D k s)
      → IsPartial D nodes entries
      → IsPartial D' nodes entries
  IsPartial-less D D' nodes entries f p = record {
    sized = p.sized;
    numbered = p.numbered;
    is_closed = p.is_closed;
    fits = p.fits;
    known = λ k s d. p.known k s (f k s d);
    stored = λ k s S d e. p.stored k s S (f k s d) e;
    different = p.different;
  }

  pub IsClosure-IsClosed :
      (start T : List ℕ) (flag : Bool) → IsClosure automaton start T flag → IsClosed T
  IsClosure-IsClosed start T flag c = record {
    unique = c.unique;
    nodes_only = c.nodes_only;
    closed = c.closed;
  }

  pub IsClosure-Fits :
      (start T : List ℕ) (flag : Bool) → IsClosure automaton start T flag → Fits T (new_node flag)
  IsClosure-Fits start T flag c = record {
    width = length-replicate {A = Option ℕ} characters_count (some 0);
    final_found = c.final_found;
    final_true = c.final_true;
  }

  -- The map gets a set that it does not have, and the automaton its node.
  pub IsPartial-extend :
      (D : ℕ → ℕ → Type 0) (nodes : List Node) (entries : Entries) (T : List ℕ) (node : Node)
      → IsPartial D nodes entries
      → IsClosed T
      → Fits T node
      → ((i : ℕ) (U : List ℕ) (u : ℕ) → get_elem? entries i ≡ some (U, u) → SameSet U T → ⊥)
      → IsPartial D (nodes ++ node ∷ []) (entries ++ (T, length nodes) ∷ [])
  IsPartial-extend D nodes entries T node p c f new = record {
    sized = omega (arith, p.sized, length-snoc nodes node, length-snoc entries entry);
    numbered = λ k i S e. elim (get_elem?-snoc entries entry k e) [
      | inl h ↦ p.numbered k i S h
      | inr h ↦
          let q : length nodes ≡ i = ap (λ (x : List ℕ × ℕ). x.1) h.1 in
          omega (arith, q, h.0, p.sized)
    ];
    is_closed = λ k i S e. elim (get_elem?-snoc entries entry k e) [
      | inl h ↦ p.is_closed k i S h
      | inr h ↦ subst IsClosed (ap (λ (x : List ℕ × ℕ). x.0) h.1) c
    ];
    fits = λ k i S e. elim (get_elem?-snoc entries entry k e) [
      | inl h ↦
          let (n, there, fit) = p.fits k i S h in (n, get_elem?-append_left nodes _ k there, fit)
      | inr h ↦ (
        node,
        get_elem?-append_at nodes node k (omega (arith, h.0, p.sized)),
        subst (λ (x : List ℕ). Fits x node) (ap (λ (x : List ℕ × ℕ). x.0) h.1) f,
      )
    ];
    known = λ k s d. omega (arith, p.known k s d, length-snoc entries entry);
    stored = λ k s S d e. elim (get_elem?-snoc entries entry k e) [
      | inl h ↦
          let edge = p.stored k s S d h in
          record {
            node = edge.node;
            target_set = edge.target_set;
            target = edge.target;
            node_at = get_elem?-append_left nodes _ k edge.node_at;
            jump_at = edge.jump_at;
            target_at = get_elem?-append_left entries _ edge.target edge.target_at;
            moves = edge.moves;
          }
      | inr h ↦ absurd (omega (arith, h.0, p.known k s d))
    ];
    different = λ i j x y e e' same. elim (get_elem?-snoc entries entry i e) [
      | inl h ↦ elim (get_elem?-snoc entries entry j e') [
        | inl h' ↦ p.different i j x y h h' same
        | inr h' ↦
            absurd
              (new i x.0 x.1 h (subst (SameSet x.0) (sym (ap (λ (z : List ℕ × ℕ). z.0) h'.1)) same))
      ]
      | inr h ↦ elim (get_elem?-snoc entries entry j e') [
        | inl h' ↦ absurd (
            new j y.0 y.1 h' (
              subst (λ (z : List ℕ). SameSet y.0 z) (sym (ap (λ (z : List ℕ × ℕ). z.0) h.1))
                (same.1, same.0)))
        | inr h' ↦ h.0 ∙ sym h'.0
      ]
    ];
  }
    where
      entry : List ℕ × ℕ
      entry = (T, length nodes)
