-- ===== src/Lexis/Subset/Emplace.antt =====
-- The rounds of the loop over the symbols of one set.
use recursive_functions.Prelude.{
  ℕ, ◌≡◌, ◌<◌, inl, inr, List, [], ◌∷◌, ◌++◌, Bool, arith, refl, length, get_elem?, some, subst, ap,
  ◌∙◌, get_elem?-lt, get_elem?-append_left, get_elem?-append_at, length-snoc, Option-cases,
  Bool-cases, ltb, ltb→lt,
}
use recursive_functions.Lexis.Jump.{characters_count}
use recursive_functions.Lexis.Automaton.{Node}
use recursive_functions.Lexis.Nfa.{NfaNode}
use recursive_functions.Lexis.EmptyJumps.Closing.{IsGraph, IsClosure}
use recursive_functions.Lexis.Subset.{
  State, set_jump, new_node, find_set, nodes_after_jump, emplace_set,
}
use recursive_functions.Lexis.Subset.Moves.{Moves, Moves-SameSet, IsClosure-Moves}
use recursive_functions.Lexis.Subset.Storing.{find_set-found, find_set-none}
use recursive_functions.Lexis.Subset.Invariant.{
  Entries, IsPartial, IsPartial-extend, IsClosure-IsClosed, IsClosure-Fits,
}
use recursive_functions.Lexis.Subset.Step.{
  Queued-append, IsQueue-larger, IsQueue-snoc, set_jump-append, IsNext, With, IsPartial-store,
}

pub IsNext-same :
    (state : State) (nodes : List Node)
    → IsNext state.old_to_new state.queue
        (record { nodes = nodes; old_to_new = state.old_to_new; queue = state.queue })
IsNext-same state nodes = record {
  larger = λ k x e. e;
  queue_kept = λ k h. h;
  queue_new = λ k h. inl h;
  is_queue = λ h. h;
  balance = refl;
}

pub IsNext-trans :
    (first second third : State)
    → IsNext first.old_to_new first.queue second
    → IsNext second.old_to_new second.queue third
    → IsNext first.old_to_new first.queue third
IsNext-trans first second third a b = record {
  larger = λ k x e. b.larger k x (a.larger k x e);
  queue_kept = λ k h. b.queue_kept k (a.queue_kept k h);
  queue_new = λ k h. elim (b.queue_new k h) [
    | inl l ↦ elim (a.queue_new k l) [ inl m ↦ inl m | inr m ↦ inr (b.queue_kept k m) ]
    | inr r ↦ inr r
  ];
  is_queue = λ h. b.is_queue (a.is_queue h);
  balance = omega (arith, a.balance, b.balance);
}

-- A new set behind the others, in the map and in the queue.
IsNext-emplaced :
    (state : State) (nodes : List Node) (T : List ℕ)
    → length state.nodes ≡ length state.old_to_new
    → IsNext state.old_to_new state.queue (record {
      nodes = nodes;
      old_to_new = state.old_to_new ++ (T, length state.nodes) ∷ [];
      queue = state.queue ++ (length state.nodes, T) ∷ [];
    })
IsNext-emplaced state nodes T sized =
    let longer = length-snoc state.old_to_new (T, length state.nodes) in
    record {
      larger = λ k x e. get_elem?-append_left state.old_to_new _ k e;
      queue_kept = λ k h. Queued-append k state.queue _ (inl h);
      queue_new = λ k h. elim (Bool-cases (ltb k (length state.old_to_new))) [
        | inl q ↦ inl (ltb→lt _ _ q)
        | inr q ↦ inr (Queued-append k state.queue _ (inr (inl (ground arith))))
      ];
      is_queue = λ h.
          IsQueue-snoc (state.old_to_new ++ (T, length state.nodes) ∷ []) state.queue
            (length state.nodes, T)
            (IsQueue-larger state.old_to_new _ state.queue
              (λ k x e. get_elem?-append_left state.old_to_new _ k e) h)
            (get_elem?-append_at state.old_to_new (T, length state.nodes) _ sized);
      balance = omega (arith, length-snoc state.queue (length state.nodes, T), longer);
    }

module _ (automaton : List NfaNode) (graph : IsGraph automaton) (index : ℕ) (S : List ℕ) where
  -- The state with D done, and the entry whose jumps are being stored.
  abbrev pub InOrder : (ℕ → ℕ → Type 0) → State → Type 0
  InOrder D state =
      IsPartial automaton D state.nodes state.old_to_new
      × (get_elem? state.old_to_new index ≡ some (S, index))

  pub emplace_set-InOrder :
      (D : ℕ → ℕ → Type 0) (symbol : ℕ) (state : State) (T : List ℕ) (flag : Bool)
      → symbol < characters_count
      → InOrder D state
      → IsClosure automaton (nodes_after_jump automaton symbol S []) T flag
      → let next = emplace_set index symbol T flag state (find_set state.old_to_new T) in
        InOrder (With D index symbol) next × IsNext state.old_to_new state.queue next
  unfolding emplace_set
  emplace_set-InOrder D symbol state T flag small o c =
      elim (Option-cases (find_set state.old_to_new T)) [
        | inl e ↦
            rw (e, emplace_set)
              (
                (
                  subst (λ (ns : List Node). IsPartial automaton (With D index symbol) ns entries')
                      (set_jump-append state.nodes _ index symbol (length state.nodes)
                        (omega (arith, get_elem?-lt state.old_to_new index o.1, o.0.sized)))
                      (IsPartial-store automaton D _ entries' index symbol (length state.nodes) S T
                        (IsPartial-extend automaton D state.nodes state.old_to_new T (new_node flag)
                          o.0 (IsClosure-IsClosed automaton _ T flag c)
                          (IsClosure-Fits automaton _ T flag c)
                          (find_set-none state.old_to_new T e))
                        (kept index _ o.1) small
                        (get_elem?-append_at state.old_to_new (T, length state.nodes) _ o.0.sized)
                        moves),
                  kept index _ o.1,
                ),
                IsNext-emplaced state _ T o.0.sized,
              )
        | inr e ↦ rw (e.1, emplace_set) (stored e.0 e.1, IsNext-same state _)
      ]
    where
      moves : Moves automaton S symbol T
      moves = IsClosure-Moves automaton graph symbol S T flag c

      entries' : Entries
      entries' = state.old_to_new ++ (T, length state.nodes) ∷ []

      kept :
          (k : ℕ) (x : List ℕ × ℕ)
          → get_elem? state.old_to_new k ≡ some x
          → get_elem? entries' k ≡ some x
      kept k x e = get_elem?-append_left state.old_to_new _ k e

      stored :
          (target : ℕ)
          → find_set state.old_to_new T ≡ some target
          → InOrder (With D index symbol) (record {
            nodes = set_jump state.nodes index symbol target;
            old_to_new = state.old_to_new;
            queue = state.queue;
          })
      stored target e =
          let (i, U, there, same) = find_set-found state.old_to_new T e in
          let q = o.0.numbered i target U there in
          (
            IsPartial-store automaton D state.nodes state.old_to_new index symbol target S U o.0 o.1
                small (ap (get_elem? state.old_to_new) q ∙ there)
                (Moves-SameSet automaton S symbol T U (same.1, same.0) moves),
            o.1,
          )
