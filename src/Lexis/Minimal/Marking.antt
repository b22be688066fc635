-- ===== src/Lexis/Minimal/Marking.antt =====
-- The marks of `get_minimal`: marked nodes accept different words, and a new mark waits in the queue.
use recursive_functions.Prelude.{
  ℕ, ◌+◌, ◌≡◌, ◌≢◌, ◌<◌, ◌≤◌, ◌⊎◌, ◌↔◌, inl, inr, List, [], ◌∷◌, ◌++◌, Bool, true, false, arith,
  refl, length, length-snoc, sym, subst,
}
use recursive_functions.Lexis.Automaton.{Node}
use recursive_functions.Lexis.Subset.Language.{accepts}
use recursive_functions.Lexis.Minimal.{Marks, marked, mark_at, mark_pair}
use recursive_functions.Lexis.Minimal.Matrix.{
  IsSquare, mark_at-IsSquare, marked-mark_at, free, free-mark_at, free-mark_new,
}

abbrev pub Marked : Marks → ℕ → ℕ → Type 0
Marked state a b = marked state.0 a b ≡ true

-- The pair stands in the queue, in either order.
abbrev pub Waits : ℕ → ℕ → List (ℕ × ℕ) → Type 0
Waits a b [] = ⊥
Waits a b (front ∷ queue) =
    (((front.0 ≡ a) × (front.1 ≡ b)) ⊎ ((front.0 ≡ b) × (front.1 ≡ a))) ⊎ Waits a b queue

Waits-append :
    (a b : ℕ) (queue more : List (ℕ × ℕ))
    → Waits a b queue ⊎ Waits a b more
    → Waits a b (queue ++ more)
Waits-append a b [] more (inl h) = elim h [ ]
Waits-append a b [] more (inr h) = h
Waits-append a b (front ∷ queue) more (inl (inl h)) = inl h
Waits-append a b (front ∷ queue) more (inl (inr h)) = inr (Waits-append a b queue more (inl h))
Waits-append a b (front ∷ queue) more (inr h) = inr (Waits-append a b queue more (inr h))

-- Some word is accepted from one of the nodes only.
abbrev pub Differ : List Node → ℕ → ℕ → Type 0
Differ nodes a b = (w : List ℕ) × (accepts nodes a w ≢ accepts nodes b w)

Differ-sym : (nodes : List Node) (a b : ℕ) → Differ nodes a b → Differ nodes b a
Differ-sym nodes a b d = (d.0, λ e. d.1 (sym e))

-- The pairs of the queue are marked.
abbrev pub QueueMarked : List (List Bool) → List (ℕ × ℕ) → Type 0
QueueMarked m [] = Unit
QueueMarked m (front ∷ queue) = (marked m front.0 front.1 ≡ true) × QueueMarked m queue

QueueMarked-larger :
    (m m' : List (List Bool)) (queue : List (ℕ × ℕ))
    → ((a b : ℕ) → marked m a b ≡ true → marked m' a b ≡ true)
    → QueueMarked m queue
    → QueueMarked m' queue
QueueMarked-larger m m' [] f h = tt
QueueMarked-larger m m' (front ∷ queue) f h =
    (f front.0 front.1 h.0, QueueMarked-larger m m' queue f h.1)

QueueMarked-snoc :
    (m : List (List Bool)) (queue : List (ℕ × ℕ)) (a b : ℕ)
    → QueueMarked m queue
    → marked m a b ≡ true
    → QueueMarked m (queue ++ (a, b) ∷ [])
QueueMarked-snoc m [] a b h k = (k, tt)
QueueMarked-snoc m (front ∷ queue) a b h k = (h.0, QueueMarked-snoc m queue a b h.1 k)

module _ (nodes : List Node) where
  pub record IsMarking (state : Marks) : Type 0 where
    pub square : IsSquare (length nodes) state.0
    pub symmetric : (a b : ℕ) → Marked state a b → Marked state b a
    pub inside : (a b : ℕ) → Marked state a b → a < length nodes
    pub differ : (a b : ℕ) → Marked state a b → Differ nodes a b
    pub in_queue : QueueMarked state.0 state.1

  pub record IsLater (state state' : Marks) : Type 0 where
    pub kept : (a b : ℕ) → Marked state a b → Marked state' a b
    pub waits : (a b : ℕ) → Waits a b state.1 → Waits a b state'.1
    pub new : (a b : ℕ) → Marked state' a b → Marked state a b ⊎ Waits a b state'.1
    pub less_free : free state'.0 ≤ free state.0

  pub IsLater-refl : (state : Marks) → IsLater state state
  IsLater-refl state = record {
    kept = λ a b h. h;
    waits = λ a b h. h;
    new = λ a b h. inl h;
    less_free = omega arith;
  }

  pub IsLater-trans :
      (first second third : Marks)
      → IsLater first second
      → IsLater second third
      → IsLater first third
  IsLater-trans first second third x y = record {
    kept = λ a b h. y.kept a b (x.kept a b h);
    waits = λ a b h. y.waits a b (x.waits a b h);
    new = λ a b h. elim (y.new a b h) [
      | inl k ↦ elim (x.new a b k) [ inl z ↦ inl z | inr z ↦ inr (y.waits a b z) ]
      | inr k ↦ inr k
    ];
    less_free = omega (arith, x.less_free, y.less_free);
  }

  -- What a part of the algorithm does that pushes at most as much as it marks.
  pub record Goes (state state' : Marks) : Type 0 where
    pub later : IsLater state state'
    pub marking : IsMarking state'
    pub balance : free state'.0 + length state'.1 ≤ free state.0 + length state.1

  pub Goes-trans :
      (first second third : Marks) → Goes first second → Goes second third → Goes first third
  Goes-trans first second third x y = record {
    later = IsLater-trans first second third x.later y.later;
    marking = y.marking;
    balance = omega (arith, x.balance, y.balance);
  }

  module _ (state : Marks) (i j : ℕ) (marking : IsMarking state) (hi : i < length nodes)
      (hj : j < length nodes) (d : Differ nodes i j) where
    abbrev once : List (List Bool)
    once = mark_at i j state.0

    once-IsSquare : IsSquare (length nodes) once
    once-IsSquare = mark_at-IsSquare (length nodes) state.0 marking.square i j hi hj

    twice_marked :
        (a b : ℕ)
        → (marked (mark_at j i once) a b ≡ true)
          ↔ (Marked state a b ⊎ (((a ≡ i) × (b ≡ j)) ⊎ ((a ≡ j) × (b ≡ i))))
    twice_marked a b =
        let x = marked-mark_at (length nodes) state.0 marking.square i j hi hj a b in
        let y = marked-mark_at (length nodes) once once-IsSquare j i hj hi a b in ground arith

    pub mark_pair-IsMarking : IsMarking (mark_pair i j state)
    unfolding mark_pair
    mark_pair-IsMarking = record {
      square = mark_at-IsSquare (length nodes) once once-IsSquare j i hj hi;
      symmetric = λ a b h.
          let x = twice_marked a b in
          let y = twice_marked b a in let z = marking.symmetric a b in ground arith;
      inside = λ a b h. let x = twice_marked a b in let z = marking.inside a b in ground arith;
      differ = λ a b h. elim ((twice_marked a b).0 h) [
        | inl k ↦ marking.differ a b k
        | inr (inl k) ↦
            subst (λ x. Differ nodes x b) (sym k.0) (subst (λ x. Differ nodes i x) (sym k.1) d)
        | inr (inr k) ↦
            subst (λ x. Differ nodes x b) (sym k.0)
              (subst (λ x. Differ nodes j x) (sym k.1) (Differ-sym nodes i j d))
      ];
      in_queue =
          QueueMarked-snoc (mark_at j i once) state.1 i j
            (QueueMarked-larger state.0 (mark_at j i once) state.1
              (λ a b h. (twice_marked a b).1 (inl h)) marking.in_queue)
            ((twice_marked i j).1 (inr (inl (refl, refl))));
    }

    pub mark_pair-IsLater : IsLater state (mark_pair i j state)
    unfolding mark_pair
    mark_pair-IsLater = record {
      kept = λ a b h. (twice_marked a b).1 (inl h);
      waits = λ a b h. Waits-append a b state.1 _ (inl h);
      new = λ a b h. elim ((twice_marked a b).0 h) [
        | inl k ↦ inl k
        | inr (inl k) ↦ inr (Waits-append a b state.1 _ (inr (inl (inl (sym k.0, sym k.1)))))
        | inr (inr k) ↦ inr (Waits-append a b state.1 _ (inr (inl (inr (sym k.1, sym k.0)))))
      ];
      less_free = omega (arith, free-mark_at state.0 i j, free-mark_at once j i);
    }

    pub mark_pair-Marked : Marked (mark_pair i j state) i j
    unfolding mark_pair
    mark_pair-Marked = (twice_marked i j).1 (inr (inl (refl, refl)))

    pub mark_pair-Goes : marked state.0 i j ≡ false → Goes state (mark_pair i j state)
    unfolding mark_pair
    mark_pair-Goes new = record {
      later = mark_pair-IsLater;
      marking = mark_pair-IsMarking;
      balance = omega (
        arith,
        free-mark_new (length nodes) state.0 i j marking.square hi hj new,
        free-mark_at once j i,
        length-snoc state.1 (i, j),
      );
    }
