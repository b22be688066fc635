-- ===== src/Lexis/Subset/Language.antt =====
-- The deterministic automaton accepts the words that the nondeterministic one accepts.
use recursive_functions.Prelude.{
  ℕ, ◌^◌, ◌≡◌, ◌<◌, ◌≤◌, ◌↔◌, inl, inr, List, [], ◌∷◌, Bool, true, false, arith, refl, length,
  get_elem?, get_elem?-lt, none, some, sym, subst, ap, ◌∙◌, contains, Bool-cases, ltb, ltb→lt,
  get_elem?-none, get_elem?-some,
}
use recursive_functions.Lexis.Jump.{characters_count}
use recursive_functions.Lexis.Automaton.{Node}
use recursive_functions.Lexis.Nfa.{NfaNode, start_address}
use recursive_functions.Lexis.Nfa.Run.{Accepts, stop, empty, step}
use recursive_functions.Lexis.EmptyJumps.Lookup.{addresses, length-addresses}
use recursive_functions.Lexis.EmptyJumps.Closing.{Reaches, here, hop, IsGraph}
use recursive_functions.Lexis.Subset.{determinize}
use recursive_functions.Lexis.Subset.Bound.{length-Different}
use recursive_functions.Lexis.Subset.Invariant.{Entries, IsPartial, Edge}
use recursive_functions.Lexis.Subset.Loop.{IsComplete, determinize-IsDeterminized}

-- Whether the automaton, at a node, accepts a word: a jump of -1 rejects, and so does a symbol that is
-- none of the 128.
unfoldable pub accepts : List Node → ℕ → List ℕ → Bool
accepts nodes k [] = elim (get_elem? nodes k) [ none ↦ false | some node ↦ node.is_final ]
accepts nodes k (s ∷ w) = elim (get_elem? nodes k) [
  | none ↦ false
  | some node ↦ elim (get_elem? node.jumps s) [
    | none ↦ false
    | some none ↦ false
    | some (some target) ↦ accepts nodes target w
  ]
]

pub accepts-nil :
    (nodes : List Node) (k : ℕ) {node : Node}
    → get_elem? nodes k ≡ some node
    → accepts nodes k [] ≡ node.is_final
unfolding accepts
accepts-nil nodes k e = rw (accepts, e) refl

pub accepts-cons :
    (nodes : List Node) (k s : ℕ) (w : List ℕ) {node : Node} {target : ℕ}
    → get_elem? nodes k ≡ some node
    → get_elem? node.jumps s ≡ some (some target)
    → accepts nodes k (s ∷ w) ≡ accepts nodes target w
unfolding accepts
accepts-cons nodes k s w e d = rw (accepts, e, d) refl

pub accepts-outside :
    (nodes : List Node) (k s : ℕ) (w : List ℕ) {node : Node}
    → get_elem? nodes k ≡ some node
    → get_elem? node.jumps s ≡ none
    → accepts nodes k (s ∷ w) ≡ false
unfolding accepts
accepts-outside nodes k s w e d = rw (accepts, e, d) refl

Reaches-Accepts :
    (automaton : List NfaNode) {a b : ℕ} {w : List ℕ}
    → Reaches automaton a b
    → Accepts automaton b w
    → Accepts automaton a w
Reaches-Accepts automaton {w = w} (here e) d = subst (λ x. Accepts automaton x w) (sym e) d
Reaches-Accepts automaton (hop c j r) d = empty c j (Reaches-Accepts automaton r d)

module _ (automaton : List NfaNode) (nodes : List Node) (entries : Entries)
    (complete : IsComplete automaton nodes entries) where
  abbrev order : IsPartial automaton complete.done nodes entries
  order = complete.is_partial

  edge_of :
      (k s : ℕ) (S : List ℕ)
      → get_elem? entries k ≡ some (S, k)
      → s < characters_count
      → Edge automaton nodes entries k s S
  edge_of k s S e h = order.stored k s S (complete.all_done k s (get_elem?-lt entries k e) h) e

  -- A run of the sets follows one of the nondeterministic automaton.
  pub Accepts-accepts :
      {a : ℕ} {w : List ℕ} (k : ℕ) (S : List ℕ)
      → get_elem? entries k ≡ some (S, k)
      → contains S a ≡ true
      → Accepts automaton a w
      → accepts nodes k w ≡ true
  Accepts-accepts {a} {w} k S e h (stop f q) =
      let (node, there, fit) = order.fits k k S e in
      subst (λ x. accepts nodes k x ≡ true) (sym q)
        (accepts-nil nodes k there ∙ fit.final_found a h f)
  Accepts-accepts {a} {w} k S e h (empty b j d) =
      Accepts-accepts k S e ((order.is_closed k k S e).closed a b h j) d
  Accepts-accepts {a} {w} k S e h (step s b v q l j d) =
      let edge = edge_of k s S e l in
      subst (λ x. accepts nodes k x ≡ true) (sym q)
        (accepts-cons nodes k s v edge.node_at edge.jump_at
          ∙ Accepts-accepts edge.target edge.target_set edge.target_at (edge.moves.forward a b h j)
              d)

  pub accepts-Accepts :
      (w : List ℕ) (k : ℕ) (S : List ℕ)
      → get_elem? entries k ≡ some (S, k)
      → accepts nodes k w ≡ true
      → (a : ℕ) × (contains S a ≡ true) × Accepts automaton a w
  accepts-Accepts [] k S e h =
      let (node, there, fit) = order.fits k k S e in
      let (a, i, f) = fit.final_true (sym (accepts-nil nodes k there) ∙ h) in (a, i, stop f refl)
  accepts-Accepts (s ∷ w) k S e h = elim (Bool-cases (ltb s characters_count)) [
    | inl l ↦
        let small = ltb→lt s characters_count l in
        let edge = edge_of k s S e small in
        let (c, i, d) =
          accepts-Accepts w edge.target edge.target_set edge.target_at
            (sym (accepts-cons nodes k s w edge.node_at edge.jump_at) ∙ h) in
        let (a, b, i', j, r) = edge.moves.backward c i in
        (a, i', step s b w refl small j (Reaches-Accepts automaton r d))
    | inr l ↦
        let (node, there, fit) = order.fits k k S e in
        let z =
          accepts-outside nodes k s w there
            (get_elem?-none node.jumps s (let x = fit.width in ground arith)) in
        absurd (cc)
  ]

module _ (automaton : List NfaNode) (graph : IsGraph automaton) where
  -- On an automaton with distinct addresses, jumps between its nodes only, and its start node among them, the
  -- subset construction ends on 2 to the power of the number of nodes rounds, and the automaton that it
  -- leaves accepts exactly the words that the nondeterministic one accepts from its start node.
  pub determinize-accepts :
      contains (addresses automaton) (start_address automaton) ≡ true
      → (nodes : List Node) × (determinize (2 ^ length automaton) automaton ≡ some nodes)
        × ((w : List ℕ)
            → (accepts nodes 0 w ≡ true) ↔ Accepts automaton (start_address automaton) w)
  determinize-accepts h =
      let (nodes, e, d) = determinize-IsDeterminized automaton graph h in
      (
        nodes,
        e,
        λ w. (
          λ z.
              let (a, i, x) =
                accepts-Accepts automaton nodes d.entries d.is_complete w 0 d.start_set d.start_at
                  z in
              let (b, i', r) = d.start_closed.reached a i in
              let q : b ≡ start_address automaton = ground arith in
              subst (λ y. Accepts automaton y w) q (Reaches-Accepts automaton r x),
          λ x.
              Accepts-accepts automaton nodes d.entries d.is_complete 0 d.start_set d.start_at
                (d.start_closed.larger _ (ground arith)) x,
        ),
      )

  -- On an automaton with distinct addresses, jumps between its nodes only, and its start node among them, the
  -- subset construction leaves at least one node and no more than 2 to the power of the number of nodes that
  -- it is given, each with 128 jumps, and each of these to one of the nodes that it leaves.
  pub determinize-bound :
      contains (addresses automaton) (start_address automaton) ≡ true
      → (nodes : List Node) × (determinize (2 ^ length automaton) automaton ≡ some nodes)
        × (0 < length nodes)
        × (length nodes ≤ 2 ^ length automaton)
        × ((k s : ℕ)
            → k < length nodes
            → s < characters_count
            → (node : Node) × (target : ℕ) × (get_elem? nodes k ≡ some node)
              × (length node.jumps ≡ characters_count)
              × (get_elem? node.jumps s ≡ some (some target))
              × (target < length nodes))
  determinize-bound h =
      let (nodes, e, d) = determinize-IsDeterminized automaton graph h in
      let p = d.is_complete.is_partial in
      let b =
        length-Different (addresses automaton) d.entries p.different
          (λ i x z. (p.is_closed i x.1 x.0 z).nodes_only) in
      (
        nodes,
        e,
        omega (arith, get_elem?-lt d.entries 0 d.start_at, p.sized),
        subst (λ n. length nodes ≤ 2 ^ n) (length-addresses automaton) (omega (arith, b, p.sized)),
        λ k s l m.
            let (entry, at_entry) = get_elem?-some d.entries k (omega (arith, l, p.sized)) in
            let q = p.numbered k entry.1 entry.0 at_entry in
            let (node, there, fit) = p.fits k entry.1 entry.0 at_entry in
            let edge =
              edge_of automaton nodes d.entries d.is_complete k s entry.0
                (at_entry ∙ ap (λ (x : ℕ). some (entry.0, x)) q) m in
            let same : some edge.node ≡ some node = sym edge.node_at ∙ there in
            let same' : edge.node ≡ node = cc in
            (
              node,
              edge.target,
              there,
              fit.width,
              ap (λ (n : Node). get_elem? n.jumps s) (sym same') ∙ edge.jump_at,
              omega (arith, get_elem?-lt d.entries edge.target edge.target_at, p.sized),
            ),
      )
