-- ===== src/Lexis/Subset/Step.antt =====
-- A round of the loop over the symbols keeps the state of the subset construction in order.
use recursive_functions.Prelude.{
  ℕ, zero, suc, ◌+◌, ◌≡◌, ◌<◌, ◌⊎◌, inl, inr, List, [], ◌∷◌, ◌++◌, Bool-cases, arith, refl, length,
  get_elem?, some, sym, subst, ap, ◌∙◌, get_elem?-lt, ◌==◌, ==_iff,
}
use recursive_functions.Lexis.Jump.{characters_count}
use recursive_functions.Lexis.Automaton.{Node}
use recursive_functions.Lexis.Nfa.{NfaNode}
use recursive_functions.Lexis.Subset.{State, set_jump}
use recursive_functions.Lexis.Subset.Moves.{Moves}
use recursive_functions.Lexis.Subset.Storing.{get_elem?-set_jump, length-set_jump}
use recursive_functions.Lexis.Subset.Invariant.{Entries, Edge, IsPartial}

-- Some entry of the queue is the node k.
abbrev pub Queued : ℕ → List (ℕ × List ℕ) → Type 0
Queued k [] = ⊥
Queued k (front ∷ queue) = (front.0 ≡ k) ⊎ Queued k queue

-- The entries of the queue are entries of the map.
abbrev pub IsQueue : Entries → List (ℕ × List ℕ) → Type 0
IsQueue entries [] = Unit
IsQueue entries (front ∷ queue) =
    (get_elem? entries front.0 ≡ some (front.1, front.0)) × IsQueue entries queue

pub Queued-append :
    (k : ℕ) (queue more : List (ℕ × List ℕ))
    → Queued k queue ⊎ Queued k more
    → Queued k (queue ++ more)
Queued-append k [] more (inl h) = elim h [ ]
Queued-append k [] more (inr h) = h
Queued-append k (front ∷ queue) more (inl (inl h)) = inl h
Queued-append k (front ∷ queue) more (inl (inr h)) = inr (Queued-append k queue more (inl h))
Queued-append k (front ∷ queue) more (inr h) = inr (Queued-append k queue more (inr h))

pub IsQueue-larger :
    (entries entries' : Entries) (queue : List (ℕ × List ℕ))
    → ((k : ℕ) (x : List ℕ × ℕ) → get_elem? entries k ≡ some x → get_elem? entries' k ≡ some x)
    → IsQueue entries queue
    → IsQueue entries' queue
IsQueue-larger entries entries' [] f h = tt
IsQueue-larger entries entries' (front ∷ queue) f h =
    (f front.0 _ h.0, IsQueue-larger entries entries' queue f h.1)

pub IsQueue-snoc :
    (entries : Entries) (queue : List (ℕ × List ℕ)) (last : ℕ × List ℕ)
    → IsQueue entries queue
    → get_elem? entries last.0 ≡ some (last.1, last.0)
    → IsQueue entries (queue ++ last ∷ [])
IsQueue-snoc entries [] last h e = (e, tt)
IsQueue-snoc entries (front ∷ queue) last h e = (h.0, IsQueue-snoc entries queue last h.1 e)

pub set_jump-append :
    (nodes more : List Node) (index s t : ℕ)
    → index < length nodes
    → set_jump (nodes ++ more) index s t ≡ set_jump nodes index s t ++ more
unfolding set_jump
set_jump-append [] more index s t h = absurd (omega arith)
set_jump-append (node ∷ nodes) more zero s t h = refl
set_jump-append (node ∷ nodes) more (suc index) s t h =
    ap (λ (rest : List Node). node ∷ rest) (set_jump-append nodes more index s t (omega arith))

-- What one more jump, or some more, make of the state.
pub record IsNext (entries : Entries) (queue : List (ℕ × List ℕ)) (next : State) : Type 0 where
  pub larger :
      (k : ℕ) (x : List ℕ × ℕ) → get_elem? entries k ≡ some x → get_elem? next.old_to_new k ≡ some x
  pub queue_kept : (k : ℕ) → Queued k queue → Queued k next.queue
  pub queue_new : (k : ℕ) → k < length next.old_to_new → (k < length entries) ⊎ Queued k next.queue
  pub is_queue : IsQueue entries queue → IsQueue next.old_to_new next.queue
  pub balance : length next.queue + length entries ≡ length queue + length next.old_to_new

abbrev pub With : (ℕ → ℕ → Type 0) → ℕ → ℕ → ℕ → ℕ → Type 0
With D index symbol k s = D k s ⊎ ((k ≡ index) × (s ≡ symbol))

module _ (automaton : List NfaNode) where
  store_edge :
      (nodes : List Node) (entries : Entries) (index symbol target k s : ℕ) (S : List ℕ)
      → (k ≡ index → s ≡ symbol → ⊥)
      → Edge automaton nodes entries k s S
      → Edge automaton (set_jump nodes index symbol target) entries k s S
  store_edge nodes entries index symbol target k s S other edge =
      let (node, there, u) = get_elem?-set_jump nodes index symbol target k edge.node_at in
      record {
        node = node;
        target_set = edge.target_set;
        target = edge.target;
        node_at = there;
        jump_at = u.others s other ∙ edge.jump_at;
        target_at = edge.target_at;
        moves = edge.moves;
      }

  pub IsPartial-store :
      (D : ℕ → ℕ → Type 0) (nodes : List Node) (entries : Entries) (index symbol target : ℕ)
      (S T : List ℕ)
      → IsPartial automaton D nodes entries
      → get_elem? entries index ≡ some (S, index)
      → symbol < characters_count
      → get_elem? entries target ≡ some (T, target)
      → Moves automaton S symbol T
      → IsPartial automaton (With D index symbol) (set_jump nodes index symbol target) entries
  IsPartial-store D nodes entries index symbol target S T p at_index small at_target moves =
      record {
        sized = length-set_jump nodes index symbol target ∙ p.sized;
        numbered = p.numbered;
        is_closed = p.is_closed;
        fits = λ k i U e.
            let (node, there, fit) = p.fits k i U e in
            let (node', there', u) = get_elem?-set_jump nodes index symbol target k there in
            (
              node',
              there',
              record {
                width = u.same_length ∙ fit.width;
                final_found = λ a h f. u.same_final ∙ fit.final_found a h f;
                final_true = λ h. fit.final_true (sym u.same_final ∙ h);
              },
            );
        known = λ k s d. elim d [
          | inl h ↦ p.known k s h
          | inr h ↦ omega (arith, h.0, get_elem?-lt entries index at_index)
        ];
        stored = λ k s U d e. elim (Bool-cases (k == index)) [
          | inl q ↦ elim (Bool-cases (s == symbol)) [
            | inl r ↦ stored_here k s U ((==_iff k index).0 q) ((==_iff s symbol).0 r) e
            | inr r ↦
                store_edge nodes entries index symbol target k s U (λ a b. ground arith)
                  (p.stored k s U (elim d [ inl h ↦ h | inr h ↦ absurd (ground arith) ]) e)
          ]
          | inr q ↦
              store_edge nodes entries index symbol target k s U (λ a b. ground arith)
                (p.stored k s U (elim d [ inl h ↦ h | inr h ↦ absurd (ground arith) ]) e)
        ];
        different = p.different;
      }
    where
      stored_here :
          (k s : ℕ) (U : List ℕ)
          → k ≡ index
          → s ≡ symbol
          → get_elem? entries k ≡ some (U, k)
          → Edge automaton (set_jump nodes index symbol target) entries k s U
      stored_here k s U q r e =
          let (node, there, fit) = p.fits k k U e in
          let (node', there', u) = get_elem?-set_jump nodes index symbol target k there in
          let same : some (S, index) ≡ some (U, k) =
            sym at_index ∙ ap (get_elem? entries) (sym q) ∙ e in
          let set_same : S ≡ U = cc in
          record {
            node = node';
            target_set = T;
            target = target;
            node_at = there';
            jump_at = ap (get_elem? node'.jumps) r ∙ u.stored q (omega (arith, fit.width, small));
            target_at = at_target;
            moves =
                subst (λ (x : ℕ). Moves automaton U x T) (sym r)
                  (subst (λ (x : List ℕ). Moves automaton x symbol T) set_same moves);
          }
