-- ===== src/Lexis/Minimal/Queue.antt =====
-- The loop over the queue of marked pairs: it ends, and then the marks are closed under parents.
use recursive_functions.Prelude.{
  ℕ, zero, suc, ◌+◌, ◌≡◌, ◌<◌, ◌≤◌, ◌⊎◌, ◌↔◌, inl, inr, List, [], ◌∷◌, Bool, true, arith, refl,
  length, some, Bool-cases, ◌==◌, ==_iff, contains, sym, subst, ◌∙◌, if◌then◌else◌,
}
use recursive_functions.Lexis.Jump.{characters_count}
use recursive_functions.Lexis.Automaton.{Node}
use recursive_functions.Lexis.Minimal.{
  Marks, marked, mark_pair, visit_pairs, visit_parents, visit_symbols, pair_loop, parents, jump_of,
}
use recursive_functions.Lexis.Minimal.Edges.{BackEdges, Parent}
use recursive_functions.Lexis.Minimal.Matrix.{free}
use recursive_functions.Lexis.Minimal.Runs.{accepts-jump_of}
use recursive_functions.Lexis.Minimal.Marking.{
  Marked, Waits, Differ, IsMarking, IsLater, IsLater-refl, Goes, Goes-trans, mark_pair-Goes,
  mark_pair-Marked,
}

module _ (nodes : List Node) where
  Goes-refl : (state : Marks) → IsMarking nodes state → Goes nodes state state
  Goes-refl state m = record {
    later = IsLater-refl nodes state;
    marking = m;
    balance = omega arith;
  }

  visit_pair-Goes :
      (state : Marks) (i j : ℕ)
      → IsMarking nodes state
      → i < length nodes
      → j < length nodes
      → Differ nodes i j
      → let next = if marked state.0 i j then state else mark_pair i j state in
        Goes nodes state next × Marked next i j
  visit_pair-Goes state i j m hi hj d = elim (Bool-cases (marked state.0 i j)) [
    | inl e ↦ rw (e) (Goes-refl state m, e)
    | inr e ↦
        rw (e)
          (mark_pair-Goes nodes state i j m hi hj d e, mark_pair-Marked nodes state i j m hi hj d)
  ]

  visit_pairs-Goes :
      (i : ℕ) (js : List ℕ) (state : Marks)
      → IsMarking nodes state
      → i < length nodes
      → ((j : ℕ) → contains js j ≡ true → (j < length nodes) × Differ nodes i j)
      → let next = visit_pairs i js state in
        Goes nodes state next × ((j : ℕ) → contains js j ≡ true → Marked next i j)
  unfolding visit_pairs
  visit_pairs-Goes i [] state m hi d = (Goes-refl state m, λ j h. absurd (ground arith))
  visit_pairs-Goes i (j ∷ js) state m hi d =
      let (hj, here) = d j (ground arith) in
      let (g, at_j) = visit_pair-Goes state i j m hi hj here in
      let (g', at_js) =
        visit_pairs-Goes i js (if marked state.0 i j then state else mark_pair i j state) g.marking
          hi (λ k h. d k (ground arith)) in
      (
        Goes-trans nodes state _ _ g g',
        λ k h. elim (Bool-cases (j == k)) [
          | inl e ↦
              subst (λ x. Marked (visit_pairs i (j ∷ js) state) i x) ((==_iff j k).0 e)
                (g'.later.kept i j at_j)
          | inr e ↦ at_js k (ground arith)
        ],
      )

  visit_parents-Goes :
      (is js : List ℕ) (state : Marks)
      → IsMarking nodes state
      → ((i : ℕ) → contains is i ≡ true → i < length nodes)
      → ((i j : ℕ)
          → contains is i ≡ true
          → contains js j ≡ true
          → (j < length nodes) × Differ nodes i j)
      → let next = visit_parents is js state in
        Goes nodes state next
        × ((i j : ℕ) → contains is i ≡ true → contains js j ≡ true → Marked next i j)
  unfolding visit_parents
  visit_parents-Goes [] js state m hi d = (Goes-refl state m, λ i j h. absurd (ground arith))
  visit_parents-Goes (i ∷ is) js state m hi d =
      let (g, at_i) =
        visit_pairs-Goes i js state m (hi i (ground arith)) (λ j k. d i j (ground arith) k) in
      let (g', at_is) =
        visit_parents-Goes is js (visit_pairs i js state) g.marking (λ k h. hi k (ground arith))
          (λ k j h. d k j (ground arith)) in
      (
        Goes-trans nodes state _ _ g g',
        λ k j h l. elim (Bool-cases (i == k)) [
          | inl e ↦
              subst (λ x. Marked (visit_parents (i ∷ is) js state) x j) ((==_iff i k).0 e)
                (g'.later.kept i j (at_i j l))
          | inr e ↦ at_is k j (ground arith) l
        ],
      )

-- The parents are those of the automaton.
abbrev pub IsBack : List Node → BackEdges → Type 0
IsBack nodes back =
    (t s x : ℕ)
    → Parent back t s x
      ↔ ((s < characters_count) × (x < length nodes) × (jump_of nodes x s ≡ some t))

module _ (nodes : List Node) (back : BackEdges) (is_back : IsBack nodes back) where
  parents-Differ :
      (i j s x y : ℕ) → Differ nodes i j → Parent back i s x → Parent back j s y → Differ nodes x y
  parents-Differ i j s x y d h k =
      let a = (is_back i s x).0 h in
      let b = (is_back j s y).0 k in
      (
        s ∷ d.0,
        λ e. d.1 (sym (accepts-jump_of nodes x s d.0 a.2) ∙ e ∙ accepts-jump_of nodes y s d.0 b.2),
      )

  -- All parents of a pair are marked.
  abbrev pub Closed : List (List Bool) → ℕ → ℕ → Type 0
  Closed m i j = (s x y : ℕ) → Parent back i s x → Parent back j s y → marked m x y ≡ true

  visit_symbols-Goes :
      (count symbol i j : ℕ) (state : Marks)
      → IsMarking nodes state
      → Differ nodes i j
      → let next = visit_symbols count symbol back i j state in
        Goes nodes state next
        × ((s x y : ℕ)
            → symbol ≤ s
            → s < symbol + count
            → Parent back i s x
            → Parent back j s y
            → Marked next x y)
  unfolding visit_symbols
  visit_symbols-Goes zero symbol i j state m d =
      (Goes-refl nodes state m, λ s x y h k. absurd (omega (arith, h, k)))
  visit_symbols-Goes (suc count) symbol i j state m d =
      let (g, here) =
        visit_parents-Goes nodes (parents back i symbol) (parents back j symbol) state m
          (λ x h. ((is_back i symbol x).0 h).1)
          (λ x y h k. (((is_back j symbol y).0 k).1, parents-Differ i j symbol x y d h k)) in
      let (g', there) =
        visit_symbols-Goes count (suc symbol) i j
          (visit_parents (parents back i symbol) (parents back j symbol) state) g.marking d in
      (
        Goes-trans nodes state _ _ g g',
        λ s x y h k p q. elim (Bool-cases (symbol == s)) [
          | inl e ↦
              let same = sym ((==_iff symbol s).0 e) in
              g'.later.kept x y (
                here x y (subst (λ z. Parent back i z x) same p)
                  (subst (λ z. Parent back j z y) same q))
          | inr e ↦ there s x y (ground arith) (omega (arith, k)) p q
        ],
      )

  -- Every mark waits, or all parents of its pair are marked.
  abbrev pub Pending : Marks → Type 0
  Pending state = (a b : ℕ) → Marked state a b → Waits a b state.1 ⊎ Closed state.0 a b

  Pending-round :
      (i j : ℕ) (m : List (List Bool)) (queue : List (ℕ × ℕ)) (next : Marks)
      → IsMarking nodes next
      → IsLater nodes (m, queue) next
      → Pending (m, (i, j) ∷ queue)
      → Closed next.0 i j
      → Pending next
  Pending-round i j m queue next marking later pending closed a b h = elim (later.new a b h) [
    | inl k ↦ elim (pending a b k) [
      | inl (inl (inl e)) ↦ inr (subst2 e.0 e.1 closed)
      | inl (inl (inr e)) ↦
          inr (λ s x y p q. marking.symmetric y x (subst2 e.0 e.1 closed s y x q p))
      | inl (inr w) ↦ inl (later.waits a b w)
      | inr c ↦ inr (λ s x y p q. later.kept x y (c s x y p q))
    ]
    | inr w ↦ inl w
  ]
    where
      subst2 : {c d : ℕ} → i ≡ c → j ≡ d → Closed next.0 i j → Closed next.0 c d
      subst2 {c} {d} p q z = subst (λ x. Closed next.0 x d) p (subst (λ x. Closed next.0 i x) q z)

  pub pair_loop-Closed :
      (fuel : ℕ) (m : List (List Bool)) (queue : List (ℕ × ℕ))
      → IsMarking nodes (m, queue)
      → Pending (m, queue)
      → free m + length queue ≤ fuel
      → (result : List (List Bool)) × (pair_loop fuel back m queue ≡ some result)
        × IsMarking nodes (result, [])
        × ((a b : ℕ) → marked m a b ≡ true → marked result a b ≡ true)
        × ((a b : ℕ) → marked result a b ≡ true → Closed result a b)
  unfolding pair_loop
  pair_loop-Closed fuel m [] marking pending h = (
    m,
    refl,
    marking,
    λ a b k. k,
    λ a b k. elim (pending a b k) [ inl w ↦ elim w [ ] | inr c ↦ c ],
  )
  pair_loop-Closed zero m (front ∷ queue) marking pending h = absurd (omega (arith, h))
  pair_loop-Closed (suc fuel) m (front ∷ queue) marking pending h =
      let before : IsMarking nodes (m, queue) = record {
        square = marking.square;
        symmetric = marking.symmetric;
        inside = marking.inside;
        differ = marking.differ;
        in_queue = marking.in_queue.1;
      } in
      let (g, closed) =
        visit_symbols-Goes characters_count 0 front.0 front.1 (m, queue) before
          (marking.differ front.0 front.1 marking.in_queue.0) in
      let next = visit_symbols characters_count 0 back front.0 front.1 (m, queue) in
      let (result, e, r, kept, c) =
        pair_loop-Closed fuel next.0 next.1 g.marking
          (Pending-round front.0 front.1 m queue next g.marking g.later pending
            (λ s x y p q. closed s x y (omega arith) (((is_back front.0 s x).0 p).0) p q))
          (omega (arith, h, g.balance)) in
      (result, e, r, λ a b k. kept a b (g.later.kept a b k), c)
