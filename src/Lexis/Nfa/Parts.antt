-- ===== src/Lexis/Nfa/Parts.antt =====
-- Automata inside larger ones, as relations: what a run inside a part is worth.
use recursive_functions.Prelude.{
  ℕ, ◌≡◌, ◌∙◌, ap, subst, refl, ◌⊎◌, inl, inr, List, [], ◌∷◌, ◌++◌, arith,
}
use recursive_functions.Lexis.Nfa.{empty_jump}
use recursive_functions.Lexis.Nfa.Run.{Accepted, stop, empty, step}
use recursive_functions.Lexis.Nfa.Words.{Concatenation, Repeated, no_more, one_more}

-- J₁ and F₁ are the part, J and F the whole, and In holds at the nodes of the part.
module _ (J₁ J : ℕ → ℕ → ℕ → Type 0) (F₁ F : ℕ → Type 0) where
  -- A run of the part is one of the whole.
  pub Accepted-larger :
      ((a s b : ℕ) → J₁ a s b → J a s b)
      → ((a : ℕ) → F₁ a → F a)
      → {a : ℕ} {w : List ℕ} → Accepted J₁ F₁ a w
      → Accepted J F a w
  Accepted-larger j f (stop h e) = stop (f _ h) e
  Accepted-larger j f (empty b h d) = empty b (j _ _ _ h) (Accepted-larger j f d)
  Accepted-larger j f (step s b v e l h d) = step s b v e l (j _ _ _ h) (Accepted-larger j f d)

  -- A run of the whole that cannot leave the part is a run of the part.
  pub Accepted-smaller :
      (In : ℕ → Type 0)
      → ((a s b : ℕ) → In a → J a s b → J₁ a s b × In b)
      → ((a : ℕ) → In a → F a → F₁ a)
      → {a : ℕ} {w : List ℕ} → In a
      → Accepted J F a w
      → Accepted J₁ F₁ a w
  Accepted-smaller In j f i (stop h e) = stop (f _ i h) e
  Accepted-smaller In j f i (empty b h d) =
      let (h', i') = j _ _ _ i h in empty b h' (Accepted-smaller In j f i' d)
  Accepted-smaller In j f i (step s b v e l h d) =
      let (h', i') = j _ _ _ i h in step s b v e l h' (Accepted-smaller In j f i' d)

  -- A run of the part goes on at the target of its final nodes.
  pub Accepted-exit :
      (t : ℕ)
      → ((a s b : ℕ) → J₁ a s b → J a s b)
      → ((a : ℕ) → F₁ a → J a empty_jump t)
      → {a : ℕ} {u : List ℕ} (v w : List ℕ) → w ≡ u ++ v
      → Accepted J₁ F₁ a u
      → Accepted J F t v
      → Accepted J F a w
  Accepted-exit t j f v w q (stop h e) d = empty t (f _ h) (subst (Accepted J F t) (cc) d)
  Accepted-exit t j f v w q (empty b h r) d = empty b (j _ _ _ h) (Accepted-exit t j f v w q r d)
  Accepted-exit t j f v w q (step s b u e l h r) d =
      step s b (u ++ v) (q ∙ ap (λ x. x ++ v) e) l (j _ _ _ h)
        (Accepted-exit t j f v (u ++ v) refl r d)

  -- A part whose only way out is from its final nodes to a target outside of it.
  pub record Leaves (In : ℕ → Type 0) (t : ℕ) : Type 0 where
    pub jump :
        (a s b : ℕ) → In a → J a s b → (J₁ a s b × In b) ⊎ (F₁ a × (s ≡ empty_jump) × (b ≡ t))
    pub no_final : (a : ℕ) → In a → F a → ⊥

  pub Accepted-leave :
      (In : ℕ → Type 0) (t : ℕ)
      → Leaves In t
      → {a : ℕ} {w : List ℕ} → In a
      → Accepted J F a w
      → Concatenation (Accepted J₁ F₁ a) (Accepted J F t) w
  Accepted-leave In t leaves i (stop h e) = absurd (leaves.no_final _ i h)
  Accepted-leave In t leaves {a} {w} i (empty b h d) = elim (leaves.jump _ _ _ i h) [
    | inl p ↦ let (u, v, e, x, y) = Accepted-leave In t leaves p.1 d in (u, v, e, empty b p.0 x, y)
    | inr p ↦ ([], w, refl, stop p.0 refl, subst (λ n. Accepted J F n w) p.2 d)
  ]
  Accepted-leave In t leaves i (step s b r e l h d) = elim (leaves.jump _ _ _ i h) [
    | inl p ↦
        let (u, v, q, x, y) = Accepted-leave In t leaves p.1 d in
        (s ∷ u, v, e ∙ ap (λ n. s ∷ n) q, step s b u refl l p.0 x, y)
    | inr p ↦ absurd (omega (arith, l, p.1))
  ]

  -- A final node t that leads into the part and to which the part leads back: a loop.
  pub record Loops (In : ℕ → Type 0) (start t : ℕ) : Type 0 where
    pub leaves : Leaves In t
    pub start_in : In start
    pub back : (s b : ℕ) → J t s b → (s ≡ empty_jump) × (b ≡ start)

  mutual
    Accepted-Repeated_at :
        (In : ℕ → Type 0) (start t : ℕ)
        → Loops In start t
        → {a : ℕ} {w : List ℕ} → a ≡ t
        → Accepted J F a w
        → Repeated (Accepted J₁ F₁ start) w
    Accepted-Repeated_at In start t loops q (stop h e) = no_more e
    Accepted-Repeated_at In start t loops q (empty b h d) =
        let (e₁, e₂) = loops.back empty_jump b (subst (λ n. J n empty_jump b) q h) in
        let (u, v, e, x, y) =
          Accepted-Repeated_in In start t loops (subst In (cc) loops.start_in) d in
        one_more u v e (subst (λ n. Accepted J₁ F₁ n u) e₂ x) y
    Accepted-Repeated_at In start t loops q (step s b v e l h d) =
        absurd (omega (arith, l, (loops.back s b (subst (λ n. J n s b) q h)).0))

    Accepted-Repeated_in :
        (In : ℕ → Type 0) (start t : ℕ)
        → Loops In start t
        → {a : ℕ} {w : List ℕ} → In a
        → Accepted J F a w
        → Concatenation (Accepted J₁ F₁ a) (Repeated (Accepted J₁ F₁ start)) w
    Accepted-Repeated_in In start t loops i (stop h e) = absurd (loops.leaves.no_final _ i h)
    Accepted-Repeated_in In start t loops i (empty b h d) = elim (loops.leaves.jump _ _ _ i h) [
      | inl p ↦
          let (u, v, e, x, y) = Accepted-Repeated_in In start t loops p.1 d in
          (u, v, e, empty b p.0 x, y)
      | inr p ↦ ([], _, refl, stop p.0 refl, Accepted-Repeated_at In start t loops p.2 d)
    ]
    Accepted-Repeated_in In start t loops i (step s b r e l h d) =
        elim (loops.leaves.jump _ _ _ i h) [
          | inl p ↦
              let (u, v, q, x, y) = Accepted-Repeated_in In start t loops p.1 d in
              (s ∷ u, v, e ∙ ap (λ n. s ∷ n) q, step s b u refl l p.0 x, y)
          | inr p ↦ absurd (omega (arith, l, p.1))
        ]

  pub Accepted-Repeated :
      (In : ℕ → Type 0) (start t : ℕ)
      → Loops In start t
      → {w : List ℕ} → Accepted J F t w
      → Repeated (Accepted J₁ F₁ start) w
  Accepted-Repeated In start t loops d = Accepted-Repeated_at In start t loops refl d

  pub Repeated-Accepted :
      (start t : ℕ)
      → ((a s b : ℕ) → J₁ a s b → J a s b)
      → ((a : ℕ) → F₁ a → J a empty_jump t)
      → J t empty_jump start
      → F t
      → {w : List ℕ} → Repeated (Accepted J₁ F₁ start) w
      → Accepted J F t w
  Repeated-Accepted start t j f b h (no_more e) = stop h e
  Repeated-Accepted start t j f b h (one_more u v e x y) =
      empty start b (Accepted-exit t j f v _ e x (Repeated-Accepted start t j f b h y))
