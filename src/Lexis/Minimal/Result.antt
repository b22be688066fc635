-- ===== src/Lexis/Minimal/Result.antt =====
-- The nodes of the minimal automaton, and the words they accept.
use recursive_functions.Prelude.{
  ℕ, ◌≡◌, ◌<◌, ◌≤◌, ◌⊎◌, inl, inr, List, [], ◌∷◌, Bool, false, arith, refl, length, get_elem?,
  get_elem?-some, get_elem?-lt, get_elem?-traverse, length-traverse, traverse, traverse-All, Option,
  some, Bool-cases, ltb, ltb→lt, sym, subst, ap, ◌∙◌,
}
use recursive_functions.Lexis.Jump.{characters_count}
use recursive_functions.Lexis.Automaton.{Node}
use recursive_functions.Lexis.Subset.Language.{accepts}
use recursive_functions.Lexis.Minimal.{marked, jump_of, final_of, class_jump, class_node}
use recursive_functions.Lexis.Minimal.Runs.{accepts-final_of, accepts-jump_of, accepts-no_jump}
use recursive_functions.Lexis.Minimal.Edges.{IsTotal}
use recursive_functions.Lexis.Minimal.Marking.{Differ}
use recursive_functions.Lexis.Minimal.Language.{
  jump_of-at, final_of-at, All-at, some_same, no_jump, no_jump_at, IsMarked, same_words,
}
use recursive_functions.Lexis.Minimal.Classes.{IsClassed}

module _ (nodes : List Node) (total : IsTotal nodes) (m : List (List Bool))
    (is_marked : IsMarked nodes total m) (reps classes : List ℕ)
    (classed : IsClassed m (length nodes) reps classes) where
  -- The node of a class has the flag of the representative, and jumps to the classes of its targets.
  pub record IsClassNode (r : ℕ) (node : Node) : Type 0 where
    pub same_final : node.is_final ≡ final_of nodes r
    pub width : length node.jumps ≡ characters_count
    pub jump :
        (s t c : ℕ)
        → jump_of nodes r s ≡ some t
        → get_elem? classes t ≡ some c
        → get_elem? node.jumps s ≡ some (some c)

  stored_symbol :
      (r s : ℕ) (repr : Node) {t : ℕ}
      → r < length nodes
      → get_elem? nodes r ≡ some repr
      → jump_of nodes r s ≡ some t
      → s < length repr.jumps
  stored_symbol r s repr h e j = elim (Bool-cases (ltb s (length repr.jumps))) [
    | inl l ↦ ltb→lt s (length repr.jumps) l
    | inr l ↦
        let z = no_jump nodes total r s h (let w = total.width r repr e in ground arith) in
        absurd (cc)
  ]

  class_node-IsClassNode :
      (r : ℕ)
      → r < length nodes
      → (node : Node) × (class_node nodes classes r ≡ some node) × IsClassNode r node
  unfolding class_node class_jump
  class_node-IsClassNode r h =
      let (repr, e) = get_elem?-some nodes r h in
      let (jumps, q, _) =
        traverse-All (class_jump classes)
          (λ (o : Option ℕ). (t : ℕ) × (o ≡ some t) × (t < length nodes))
          (λ (o : Option ℕ). Unit {0})
          (λ o p.
            let (c, _, at_c, _, _) = classed.class_at p.0 p.2 in
            (some c, ap (class_jump classes) p.1 ∙ rw (class_jump, at_c) refl, tt))
          repr.jumps
          (All-at (λ (o : Option ℕ). (t : ℕ) × (o ≡ some t) × (t < length nodes)) repr.jumps
            (λ s o d.
              let small : s < characters_count =
                omega (arith, get_elem?-lt repr.jumps s d, total.width r repr e) in
              let (t, j, l) = total.jump_in r s h small in
              (t, sym (jump_of-at nodes r s e d) ∙ j, l))) in
      (
        record { is_final = repr.is_final; jumps = jumps },
        rw (class_node, e, q) refl,
        record {
          same_final = sym (final_of-at nodes r e);
          width = omega (
            arith,
            length-traverse (class_jump classes) repr.jumps jumps q,
            total.width r repr e,
          );
          jump = λ s t c j k.
              let small : s < length repr.jumps = stored_symbol r s repr h e j in
              let (o, d) = get_elem?-some repr.jumps s small in
              let (y, f, at_y) = get_elem?-traverse (class_jump classes) repr.jumps jumps s q d in
              let same : class_jump classes o ≡ some (some c) =
                ap (class_jump classes) (sym (jump_of-at nodes r s e d) ∙ j)
                ∙ rw (class_jump, k) refl in
              let z : some y ≡ some (some c) = sym f ∙ same in at_y ∙ z;
        },
      )

  abbrev pub IsResult : List Node → Type 0
  IsResult result =
      (length result ≡ length reps)
      × ((c r : ℕ)
          → get_elem? reps c ≡ some r
          → (node : Node) × (get_elem? result c ≡ some node) × IsClassNode r node)

  pub traverse-IsResult :
      (result : List Node) × (traverse (class_node nodes classes) reps ≡ some result)
      × IsResult result
  traverse-IsResult =
      let (result, e, _) =
        traverse-All (class_node nodes classes) (λ (r : ℕ). r < length nodes)
          (λ (node : Node). Unit {0})
          (λ r h. let (node, q, _) = class_node-IsClassNode r h in (node, q, tt)) reps
          (All-at (λ (r : ℕ). r < length nodes) reps (λ c r h. classed.rep_in c r h)) in
      (
        result,
        e,
        (
          length-traverse (class_node nodes classes) reps result e,
          λ c r h.
              let (node, q, there) =
                get_elem?-traverse (class_node nodes classes) reps result c e h in
              let (node', q', fits) = class_node-IsClassNode r (classed.rep_in c r h) in
              let z : some node' ≡ some node = sym q' ∙ q in
              let same : node' ≡ node = cc in (node, there, subst (IsClassNode r) same fits),
        ),
      )

  to_node :
      (w : List ℕ) (k c r : ℕ)
      → k < length nodes
      → get_elem? reps c ≡ some r
      → (k ≡ r) ⊎ (marked m k r ≡ false)
      → accepts nodes r w ≡ accepts nodes k w
  to_node w k c r hk at_r (inl q) = ap (λ (x : ℕ). accepts nodes x w) (sym q)
  to_node w k c r hk at_r (inr f) =
      sym (same_words nodes total m is_marked w k r hk (classed.rep_in c r at_r) f)

  -- A node of the result accepts the words of its representative.
  representative_words :
      (result : List Node)
      → IsResult result
      → (w : List ℕ) (c r : ℕ) (node : Node) → get_elem? reps c ≡ some r
      → get_elem? result c ≡ some node
      → IsClassNode r node
      → accepts result c w ≡ accepts nodes r w
  representative_words result is_result [] c r node at_r there fits =
      accepts-final_of result c
      ∙ final_of-at result c there
      ∙ fits.same_final
      ∙ sym (accepts-final_of nodes r)
  representative_words result is_result (s ∷ w) c r node at_r there fits =
      let hr = classed.rep_in c r at_r in
      elim (Bool-cases (ltb s characters_count)) [
        | inl l ↦
            let (t, j, ht) = total.jump_in r s hr (ltb→lt s characters_count l) in
            let (c', r', e', at_r', u) = classed.class_at t ht in
            let (node', there', fits') = is_result.1 c' r' at_r' in
            accepts-jump_of result c s w (jump_of-at result c s there (fits.jump s t c' j e'))
            ∙ representative_words result is_result w c' r' node' at_r' there' fits'
            ∙ to_node w t c' r' ht at_r' u
            ∙ sym (accepts-jump_of nodes r s w j)
        | inr l ↦
            let h : characters_count ≤ s = ground arith in
            accepts-no_jump result c s w
              (no_jump_at nodes total result c s there (omega (arith, h, fits.width)))
            ∙ sym (accepts-no_jump nodes r s w (no_jump nodes total r s hr h))
      ]

  -- A class accepts the words of each of its nodes.
  pub class_words :
      (result : List Node)
      → IsResult result
      → (w : List ℕ) (k c : ℕ) → k < length nodes
      → get_elem? classes k ≡ some c
      → accepts result c w ≡ accepts nodes k w
  class_words result is_result w k c hk e =
      let (c', r, e', at_r, u) = classed.class_at k hk in
      let same : c' ≡ c = some_same (sym e' ∙ e) in
      let (node, there, fits) = is_result.1 c' r at_r in
      ap (λ (x : ℕ). accepts result x w) (sym same)
      ∙ representative_words result is_result w c' r node at_r there fits
      ∙ to_node w k c' r hk at_r u

  pub result-Differ :
      (result : List Node)
      → IsResult result
      → (b c : ℕ) → b < c
      → c < length result
      → Differ result c b
  result-Differ result is_result b c h l =
      let (x, at_x) = get_elem?-some reps b (omega (arith, h, l, is_result.0)) in
      let (y, at_y) = get_elem?-some reps c (omega (arith, l, is_result.0)) in
      let (node, there, fits) = is_result.1 b x at_x in
      let (node', there', fits') = is_result.1 c y at_y in
      let (w, d) = is_marked.differ y x (classed.apart b c x y h at_x at_y) in
      (
        w,
        λ e. d (
            sym (representative_words result is_result w c y node' at_y there' fits')
            ∙ e
            ∙ representative_words result is_result w b x node at_x there fits),
      )
