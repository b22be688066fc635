-- ===== src/Lexis/Minimal/Classes.antt =====
-- The classes of the nodes: each node has the class of a representative that is not marked with it, and
-- two representatives are marked.
use recursive_functions.Prelude.{
  ℕ, zero, suc, ◌+◌, ◌≡◌, ◌<◌, ◌≤◌, ◌⊎◌, inl, inr, List, [], ◌∷◌, ◌++◌, Bool, true, false, arith,
  refl, length, length-snoc, get_elem?, get_elem?-lt, get_elem?-snoc, get_elem?-append_left,
  get_elem?-append_at, none, some, Option-cases, Bool-cases, ltb, ltb→lt, sym, subst, ap, ◌∙◌,
}
use recursive_functions.Lexis.Minimal.{marked, find_class, add_class, class_loop}

module _ (m : List (List Bool)) where
  find_class-none :
      (i : ℕ) (reps : List ℕ) (j : ℕ)
      → find_class m i reps j ≡ none
      → (c r : ℕ) → get_elem? reps c ≡ some r
      → marked m i r ≡ true
  unfolding find_class
  find_class-none i [] j e c r h = absurd (cc)
  find_class-none i (first ∷ reps) j e c r h = elim (Bool-cases (marked m i first)) [
    | inl t ↦ at_index c h t (find_class-none i reps (suc j) (ground (arith, e, t)))
    | inr f ↦ absurd (ground (arith, e, f))
  ]
    where
      at_index :
          (c : ℕ)
          → get_elem? (first ∷ reps) c ≡ some r
          → marked m i first ≡ true
          → ((c r : ℕ) → get_elem? reps c ≡ some r → marked m i r ≡ true)
          → marked m i r ≡ true
      at_index zero h t rest = let q : first ≡ r = cc in ap (marked m i) (sym q) ∙ t
      at_index (suc c) h t rest = rest c r h

  find_class-some :
      (i : ℕ) (reps : List ℕ) (j found : ℕ)
      → find_class m i reps j ≡ some found
      → (c : ℕ) × (r : ℕ) × (found ≡ j + c) × (get_elem? reps c ≡ some r) × (marked m i r ≡ false)
  unfolding find_class
  find_class-some i [] j found e = absurd (cc)
  find_class-some i (first ∷ reps) j found e = elim (Bool-cases (marked m i first)) [
    | inl t ↦
        let (c, r, q, h, f) = find_class-some i reps (suc j) found (ground (arith, e, t)) in
        (suc c, r, omega (arith, q), h, f)
    | inr f ↦ (0, first, ground (arith, e, f), refl, f)
  ]

  -- The loop when it comes to node i.
  pub record IsClassed (i : ℕ) (reps classes : List ℕ) : Type 0 where
    pub sized : length classes ≡ i
    pub fewer : length reps ≤ i
    pub class_at :
        (k : ℕ)
        → k < i
        → (c : ℕ) × (r : ℕ) × (get_elem? classes k ≡ some c)
          × (get_elem? reps c ≡ some r)
          × ((k ≡ r) ⊎ (marked m k r ≡ false))
    pub rep_in : (c r : ℕ) → get_elem? reps c ≡ some r → r < i
    pub apart :
        (b c x y : ℕ)
        → b < c
        → get_elem? reps b ≡ some x
        → get_elem? reps c ≡ some y
        → marked m y x ≡ true
    pub first : 0 < i → get_elem? classes 0 ≡ some 0

  first_class :
      (i : ℕ) (reps classes : List ℕ) (c : ℕ)
      → IsClassed i reps classes
      → (i ≡ 0 → c ≡ 0)
      → get_elem? (classes ++ c ∷ []) 0 ≡ some 0
  first_class i reps classes c s h = elim (Bool-cases (ltb 0 i)) [
    | inl l ↦ get_elem?-append_left classes _ 0 (s.first (ltb→lt 0 i l))
    | inr l ↦
        get_elem?-append_at classes c 0 (let z = s.sized in ground arith)
        ∙ ap some (h (ground arith))
  ]

  add_class-IsClassed :
      (i : ℕ) (reps classes : List ℕ)
      → IsClassed i reps classes
      → let next = add_class i (find_class m i reps 0) reps classes in
        IsClassed (suc i) next.0 next.1
  unfolding add_class
  add_class-IsClassed i reps classes s = elim (Option-cases (find_class m i reps 0)) [
    | inl e ↦
        rw (e, add_class)
          (record {
            sized = omega (arith, length-snoc classes (length reps), s.sized);
            fewer = omega (arith, length-snoc reps i, s.fewer);
            class_at = λ k l. elim (Bool-cases (ltb k i)) [
              | inl q ↦
                  let (c, r, a, b, d) = s.class_at k (ltb→lt k i q) in
                  (c, r, get_elem?-append_left classes _ k a, get_elem?-append_left reps _ c b, d)
              | inr q ↦ (
                length reps,
                i,
                get_elem?-append_at classes (length reps) k (let z = s.sized in ground arith),
                get_elem?-append_at reps i (length reps) refl,
                inl (ground arith),
              )
            ];
            rep_in = λ c r h. elim (get_elem?-snoc reps i c h) [
              | inl z ↦ omega (arith, s.rep_in c r z)
              | inr z ↦ omega (arith, z.1)
            ];
            apart = λ b c x y l h k. elim (get_elem?-snoc reps i c k) [
              | inl z ↦ elim (get_elem?-snoc reps i b h) [
                | inl w ↦ s.apart b c x y l w z
                | inr w ↦ absurd (omega (arith, l, w.0, get_elem?-lt reps c z))
              ]
              | inr z ↦ elim (get_elem?-snoc reps i b h) [
                | inl w ↦ ap (λ (v : ℕ). marked m v x) (sym z.1) ∙ find_class-none i reps 0 e b x w
                | inr w ↦ absurd (omega (arith, l, w.0, z.0))
              ]
            ];
            first =
                λ l. first_class i reps classes (length reps) s (λ z. omega (arith, s.fewer, z));
          })
    | inr e ↦
        let (c, r, q, h, f) = find_class-some i reps 0 e.0 e.1 in
        rw (e.1, add_class)
          (record {
            sized = omega (arith, length-snoc classes e.0, s.sized);
            fewer = omega (arith, s.fewer);
            class_at = λ k l. elim (Bool-cases (ltb k i)) [
              | inl z ↦
                  let (c', r', a, b, d) = s.class_at k (ltb→lt k i z) in
                  (c', r', get_elem?-append_left classes _ k a, b, d)
              | inr z ↦ (
                e.0,
                r,
                get_elem?-append_at classes e.0 k (let z' = s.sized in ground arith),
                (let q' : e.0 ≡ c = omega (arith, q) in ap (get_elem? reps) q' ∙ h),
                inr (let same : k ≡ i = ground arith in ap (λ (v : ℕ). marked m v r) same ∙ f),
              )
            ];
            rep_in = λ c' r' k. omega (arith, s.rep_in c' r' k);
            apart = s.apart;
            first = λ l.
                first_class i reps classes e.0 s
                  (λ z. absurd (omega (arith, s.fewer, get_elem?-lt reps c h, z)));
          })
  ]

  class_loop-rounds :
      (count i : ℕ) (reps classes : List ℕ)
      → IsClassed i reps classes
      → let result = class_loop count i m reps classes in IsClassed (i + count) result.0 result.1
  unfolding class_loop
  class_loop-rounds zero i reps classes s = subst (λ n. IsClassed n reps classes) (omega arith) s
  class_loop-rounds (suc count) i reps classes s =
      let next = add_class i (find_class m i reps 0) reps classes in
      let last = class_loop count (suc i) m next.0 next.1 in
      subst (λ n. IsClassed n last.0 last.1) (omega arith)
        (class_loop-rounds count (suc i) next.0 next.1 (add_class-IsClassed i reps classes s))

  pub class_loop-IsClassed :
      (n : ℕ) → let result = class_loop n 0 m [] [] in IsClassed n result.0 result.1
  class_loop-IsClassed n =
      let result = class_loop n 0 m [] [] in
      subst (λ k. IsClassed k result.0 result.1) (omega arith)
        (class_loop-rounds n 0 [] [] (record {
          sized = refl;
          fewer = omega arith;
          class_at = λ k l. absurd (omega arith);
          rep_in = λ c r h. absurd (cc);
          apart = λ b c x y l h. absurd (cc);
          first = λ l. absurd (omega arith);
        }))
