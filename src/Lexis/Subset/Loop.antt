-- ===== src/Lexis/Subset/Loop.antt =====
-- The loops of the subset construction end, and leave a node for every set that is reached.
use recursive_functions.Prelude.{
  ℕ, zero, suc, ◌+◌, ◌^◌, ◌≡◌, ◌<◌, ◌≤◌, ◌⊎◌, inl, inr, List, [], ◌∷◌, Bool, true, arith, refl,
  length, get_elem?, some, sym, subst, ◌∙◌, contains, Bool-cases, ◌==◌,
}
use recursive_functions.Lexis.Jump.{characters_count}
use recursive_functions.Lexis.Automaton.{Node}
use recursive_functions.Lexis.Nfa.{NfaNode, start_address}
use recursive_functions.Lexis.EmptyJumps.Lookup.{addresses, length-addresses}
use recursive_functions.Lexis.EmptyJumps.Closing.{IsGraph, IsClosure, do_empty_jumps-IsClosure}
use recursive_functions.Lexis.Subset.{
  State, new_node, nodes_after_jump, jump_step, symbols_loop, queue_loop, determinize,
}
use recursive_functions.Lexis.Subset.Moves.{nodes_after_jump-Distinct, nodes_after_jump-Subset}
use recursive_functions.Lexis.Subset.Bound.{length-Different}
use recursive_functions.Lexis.Subset.Invariant.{
  Entries, IsClosed, Fits, IsPartial, IsPartial-less, IsClosure-IsClosed, IsClosure-Fits,
}
use recursive_functions.Lexis.Subset.Step.{Queued, IsQueue, IsNext, With}
use recursive_functions.Lexis.Subset.Emplace.{
  InOrder, IsNext-same, IsNext-trans, emplace_set-InOrder,
}

-- D, and the symbols from `symbol` on of the node `index`, `count` of them.
abbrev Until : (ℕ → ℕ → Type 0) → ℕ → ℕ → ℕ → ℕ → ℕ → Type 0
Until D index symbol count k s = D k s ⊎ ((k ≡ index) × (symbol ≤ s) × (s < symbol + count))

-- The map at the start.
abbrev first_entry : List ℕ → Entries
first_entry S = (S, 0) ∷ []

-- The nodes stand for the sets, and every jump of them is stored.
pub record IsComplete (automaton : List NfaNode) (nodes : List Node) (entries : Entries)
    : Type 1 where
  pub done : ℕ → ℕ → Type 0
  pub is_partial : IsPartial automaton done nodes entries
  pub all_done : (k s : ℕ) → k < length entries → s < characters_count → done k s

module _ (automaton : List NfaNode) (graph : IsGraph automaton) where
  jump_step-InOrder :
      (index : ℕ) (S : List ℕ) (D : ℕ → ℕ → Type 0) (symbol : ℕ) (state : State)
      → symbol < characters_count
      → InOrder automaton graph index S D state
      → (next : State) × (jump_step automaton index S symbol state ≡ some next)
        × InOrder automaton graph index S (With D index symbol) next
        × IsNext state.old_to_new state.queue next
  unfolding jump_step
  jump_step-InOrder index S D symbol state small o =
      let (T, flag, e, c) =
        do_empty_jumps-IsClosure automaton (nodes_after_jump automaton symbol S []) graph
          (nodes_after_jump-Distinct automaton graph symbol S [] tt)
          (nodes_after_jump-Subset automaton graph symbol S) in
      let (o', n) = emplace_set-InOrder automaton graph index S D symbol state T flag small o c in
      (_, rw (jump_step, e) refl, o', n)

  symbols_loop-InOrder :
      (count index : ℕ) (S : List ℕ) (D : ℕ → ℕ → Type 0) (symbol : ℕ) (state : State)
      → symbol + count ≤ characters_count
      → InOrder automaton graph index S D state
      → (next : State) × (symbols_loop count automaton index S symbol state ≡ some next)
        × InOrder automaton graph index S (Until D index symbol count) next
        × IsNext state.old_to_new state.queue next
  unfolding symbols_loop
  symbols_loop-InOrder zero index S D symbol state small o = (
    state,
    refl,
    (
      IsPartial-less automaton D _ state.nodes state.old_to_new
          (λ k s d. elim d [ inl h ↦ h | inr h ↦ absurd (omega (arith, h)) ]) o.0,
      o.1,
    ),
    IsNext-same state state.nodes,
  )
  symbols_loop-InOrder (suc count) index S D symbol state small o =
      let (next, e, o', n) = jump_step-InOrder index S D symbol state (omega (arith, small)) o in
      let (last, e', o'', n') =
        symbols_loop-InOrder count index S (With D index symbol) (suc symbol) next
          (omega (arith, small)) o' in
      (
        last,
        rw (symbols_loop, e) e',
        (
          IsPartial-less automaton _ _ last.nodes last.old_to_new
              (λ k s d. elim d [
                | inl h ↦ inl (inl h)
                | inr h ↦ elim (Bool-cases (s == symbol)) [
                  | inl q ↦ inl (inr (ground arith))
                  | inr q ↦ inr (ground arith)
                ]
              ])
              o''.0,
          o''.1,
        ),
        IsNext-trans state next last n n',
      )

  queue_loop-IsComplete :
      (fuel : ℕ) (nodes : List Node) (entries : Entries) (queue : List (ℕ × List ℕ))
      (D : ℕ → ℕ → Type 0)
      → IsPartial automaton D nodes entries
      → IsQueue entries queue
      → ((k : ℕ) → k < length entries → Queued k queue ⊎ ((s : ℕ) → s < characters_count → D k s))
      → length queue + 2 ^ length automaton ≤ fuel + length entries
      → (nodes' : List Node) × (entries' : Entries) × (queue_loop fuel automaton nodes entries queue
          ≡ some nodes')
        × IsComplete automaton nodes' entries'
        × ((x : List ℕ × ℕ) → get_elem? entries 0 ≡ some x → get_elem? entries' 0 ≡ some x)
  unfolding queue_loop
  queue_loop-IsComplete fuel nodes entries [] D p q covered h = (
    nodes,
    entries,
    refl,
    record {
      done = D;
      is_partial = p;
      all_done = λ k s l m. elim (covered k l) [ inl z ↦ elim z [ ] | inr z ↦ z s m ];
    },
    λ x e. e,
  )
  queue_loop-IsComplete zero nodes entries (front ∷ queue) D p q covered h =
      let b =
        length-Different (addresses automaton) entries p.different
          (λ i x e. (p.is_closed i x.1 x.0 e).nodes_only) in
      absurd (omega (arith, h, subst (λ n. length entries ≤ 2 ^ n) (length-addresses automaton) b))
  queue_loop-IsComplete (suc fuel) nodes entries (front ∷ queue) D p q covered h =
      let (next, e, o, n) =
        symbols_loop-InOrder characters_count front.0 front.1 D 0
          (record { nodes = nodes; old_to_new = entries; queue = queue }) (omega arith) (p, q.0) in
      let (nodes', entries', e', c, kept) =
        queue_loop-IsComplete fuel next.nodes next.old_to_new next.queue
          (Until D front.0 0 characters_count) o.0 (n.is_queue q.1)
          (λ k l. elim (n.queue_new k l) [
            | inl m ↦ elim (covered k m) [
              | inl z ↦ elim z [
                | inl y ↦ inr (λ s i. inr (sym y, omega arith, omega (arith, i)))
                | inr y ↦ inl (n.queue_kept k y)
              ]
              | inr z ↦ inr (λ s i. inl (z s i))
            ]
            | inr m ↦ inl m
          ])
          (omega (arith, h, n.balance)) in
      (nodes', entries', rw (queue_loop, e) e', c, λ x z. kept x (n.larger 0 x z))

  -- The state at the start: one node, for the closure of the start node.
  first-IsPartial :
      (S : List ℕ) (flag : Bool)
      → IsClosure automaton (start_address automaton ∷ []) S flag
      → IsPartial automaton (λ k s. ⊥) (new_node flag ∷ []) (first_entry S)
  first-IsPartial S flag c = record {
    sized = refl;
    numbered = λ k i T z. only_entry k i T z;
    is_closed = λ k i T z.
        subst (IsClosed automaton) (only_set k i T z) (IsClosure-IsClosed automaton _ S flag c);
    fits = λ k i T z. (
      new_node flag,
      only_node k i T z,
      subst (λ (x : List ℕ). Fits automaton x (new_node flag)) (only_set k i T z)
          (IsClosure-Fits automaton _ S flag c),
    );
    known = λ k s d. elim d [ ];
    stored = λ k s T d. elim d [ ];
    different = λ i j x y z z' same. only_index i x z ∙ sym (only_index j y z');
  }
    where
      only_index : (k : ℕ) (x : List ℕ × ℕ) → get_elem? (first_entry S) k ≡ some x → k ≡ 0
      only_index zero x z = refl
      only_index (suc k) x z = absurd (cc)

      only_entry : (k i : ℕ) (T : List ℕ) → get_elem? (first_entry S) k ≡ some (T, i) → i ≡ k
      only_entry zero i T z = cc
      only_entry (suc k) i T z = absurd (cc)

      only_set : (k i : ℕ) (T : List ℕ) → get_elem? (first_entry S) k ≡ some (T, i) → S ≡ T
      only_set zero i T z = cc
      only_set (suc k) i T z = absurd (cc)

      only_node :
          (k i : ℕ) (T : List ℕ)
          → get_elem? (first_entry S) k ≡ some (T, i)
          → get_elem? (new_node flag ∷ []) k ≡ some (new_node flag)
      only_node zero i T z = refl
      only_node (suc k) i T z = absurd (cc)

  -- The result of the construction.
  pub record IsDeterminized (nodes : List Node) : Type 1 where
    pub entries : Entries
    pub start_set : List ℕ
    pub start_flag : Bool
    pub is_complete : IsComplete automaton nodes entries
    pub start_at : get_elem? entries 0 ≡ some (start_set, 0)
    pub start_closed : IsClosure automaton (start_address automaton ∷ []) start_set start_flag

  pub determinize-IsDeterminized :
      contains (addresses automaton) (start_address automaton) ≡ true
      → (nodes : List Node) × (determinize (2 ^ length automaton) automaton ≡ some nodes)
        × IsDeterminized nodes
  unfolding determinize
  determinize-IsDeterminized h =
      let (S, flag, e, c) =
        do_empty_jumps-IsClosure automaton (start_address automaton ∷ []) graph (refl, tt)
          (λ n k. subst (λ (x : ℕ). contains (addresses automaton) x ≡ true) (ground arith) h) in
      let (nodes, entries, e', complete, kept) =
        queue_loop-IsComplete (2 ^ length automaton) (new_node flag ∷ []) ((S, 0) ∷ [])
          ((0, S) ∷ []) (λ k s. ⊥) (first-IsPartial S flag c) (refl, tt)
          (λ k l. inl (inl (omega (arith, l)))) (omega arith) in
      (
        nodes,
        rw (determinize, e) e',
        record {
          entries = entries;
          start_set = S;
          start_flag = flag;
          is_complete = complete;
          start_at = kept (S, 0) refl;
          start_closed = c;
        },
      )
