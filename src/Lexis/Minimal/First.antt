-- ===== src/Lexis/Minimal/First.antt =====
-- The first marks: the pairs of which one node is final.
use recursive_functions.Prelude.{
  ℕ, zero, suc, ◌+◌, ◌*◌, ◌≡◌, ◌≢◌, ◌<◌, ◌≤◌, inl, inr, List, [], Bool, true, false, not, ◌&&◌,
  ◌||◌, arith, refl, length, length-snoc, replicate, Bool-cases, ◌==◌, ==_iff, sym, subst, ap, ◌∙◌,
  if◌then◌else◌, ltb, ltb→lt,
}
use recursive_functions.Lexis.Automaton.{Node}
use recursive_functions.Lexis.Minimal.{Marks, mark_pair, first_row, first_rows, final_of}
use recursive_functions.Lexis.Minimal.Runs.{accepts-final_of}
use recursive_functions.Lexis.Minimal.Matrix.{free, free-first, unmarked_first, first-IsSquare}
use recursive_functions.Lexis.Minimal.Marking.{
  Marked, Waits, Differ, IsMarking, IsLater, IsLater-refl, IsLater-trans, mark_pair-IsMarking,
  mark_pair-IsLater, mark_pair-Marked,
}

length-mark_pair : (i j : ℕ) (state : Marks) → length (mark_pair i j state).1 ≡ length state.1 + 1
unfolding mark_pair
length-mark_pair i j state = length-snoc state.1 (i, j)

abbrev different : List Node → ℕ → ℕ → Bool
different nodes i j =
    (final_of nodes i && not (final_of nodes j)) || (not (final_of nodes i) && final_of nodes j)

different-final_of : (a b : Bool) → a ≢ b → ((a && not b) || (not a && b)) ≡ true
different-final_of true true h = absurd (h refl)
different-final_of true false h = refl
different-final_of false true h = refl
different-final_of false false h = absurd (h refl)

final_of-different : (a b : Bool) → ((a && not b) || (not a && b)) ≡ true → a ≢ b
final_of-different true true h e = cc
final_of-different true false h e = cc
final_of-different false true h e = cc
final_of-different false false h e = cc

module _ (nodes : List Node) where
  -- A loop that marks, with at most `pushes` new pairs in the queue.
  record Prolongs (state state' : Marks) (pushes : ℕ) : Type 0 where
    marking : IsMarking nodes state'
    later : IsLater nodes state state'
    short : length state'.1 ≤ length state.1 + pushes

  first_pair-Prolongs :
      (i j : ℕ) (state : Marks)
      → IsMarking nodes state
      → i < length nodes
      → j < length nodes
      → let next = if different nodes i j then mark_pair i j state else state in
        Prolongs state next 1 × (final_of nodes i ≢ final_of nodes j → Marked next i j)
  first_pair-Prolongs i j state m hi hj = elim (Bool-cases (different nodes i j)) [
    | inl e ↦
        let d : Differ nodes i j = (
          [],
          λ q.
              final_of-different (final_of nodes i) (final_of nodes j) e
                (sym (accepts-final_of nodes i) ∙ q ∙ accepts-final_of nodes j),
        ) in
        rw (e) (
          record {
            marking = mark_pair-IsMarking nodes state i j m hi hj d;
            later = mark_pair-IsLater nodes state i j m hi hj d;
            short = omega (arith, length-mark_pair i j state);
          },
          λ h. mark_pair-Marked nodes state i j m hi hj d,
        )
    | inr e ↦ rw (e) (
      record { marking = m; later = IsLater-refl nodes state; short = omega arith },
      λ h. let z = different-final_of (final_of nodes i) (final_of nodes j) h in absurd (cc),
    )
  ]

  first_row-Prolongs :
      (count j i : ℕ) (state : Marks)
      → IsMarking nodes state
      → i < length nodes
      → j + count ≤ i
      → let next = first_row count j i nodes state in
        Prolongs state next count
        × ((k : ℕ) → j ≤ k → k < j + count → final_of nodes i ≢ final_of nodes k → Marked next i k)
  unfolding first_row
  first_row-Prolongs zero j i state m hi h = (
    record { marking = m; later = IsLater-refl nodes state; short = omega arith },
    λ k l l'. absurd (omega (arith, l, l')),
  )
  first_row-Prolongs (suc count) j i state m hi h =
      let (a, here) = first_pair-Prolongs i j state m hi (omega (arith, hi, h)) in
      let next = if different nodes i j then mark_pair i j state else state in
      let (b, there) = first_row-Prolongs count (suc j) i next a.marking hi (omega (arith, h)) in
      (
        record {
          marking = b.marking;
          later = IsLater-trans nodes state next _ a.later b.later;
          short = omega (arith, a.short, b.short);
        },
        λ k l l' d. elim (Bool-cases (j == k)) [
          | inl e ↦
              let same = (==_iff j k).0 e in
              subst (λ x. Marked (first_row (suc count) j i nodes state) i x) same
                (b.later.kept i j (here (λ q. d (q ∙ ap (final_of nodes) same))))
          | inr e ↦ there k (ground arith) (omega (arith, l')) d
        ],
      )

  first_rows-Prolongs :
      (count i : ℕ) (state : Marks)
      → IsMarking nodes state
      → i + count ≤ length nodes
      → let next = first_rows count i nodes state in
        Prolongs state next (count * length nodes)
        × ((x y : ℕ)
            → i ≤ x
            → x < i + count
            → y < x
            → final_of nodes x ≢ final_of nodes y
            → Marked next x y)
  unfolding first_rows
  first_rows-Prolongs zero i state m h = (
    record { marking = m; later = IsLater-refl nodes state; short = omega arith },
    λ x y l l'. absurd (omega (arith, l, l')),
  )
  first_rows-Prolongs (suc count) i state m h =
      let (a, here) = first_row-Prolongs i 0 i state m (omega (arith, h)) (omega arith) in
      let next = first_row i 0 i nodes state in
      let (b, there) = first_rows-Prolongs count (suc i) next a.marking (omega (arith, h)) in
      (
        record {
          marking = b.marking;
          later = IsLater-trans nodes state next _ a.later b.later;
          short = let p = a.short in let q = b.short in ground arith;
        },
        λ x y l l' k d. elim (Bool-cases (i == x)) [
          | inl e ↦
              let same = (==_iff i x).0 e in
              subst (λ z. Marked (first_rows (suc count) i nodes state) z y) same
                (b.later.kept i y (
                  here y (omega arith) (omega (arith, k, same))
                    (λ q. d (ap (final_of nodes) (sym same) ∙ q))))
          | inr e ↦ there x y (ground arith) (omega (arith, l')) k d
        ],
      )

  -- What the first loops leave, from the matrix with no marks.
  pub record IsFirst (state : Marks) : Type 0 where
    pub marking : IsMarking nodes state
    pub waiting : (a b : ℕ) → Marked state a b → Waits a b state.1
    pub finals :
        (a b : ℕ)
        → a < length nodes
        → b < length nodes
        → final_of nodes a ≢ final_of nodes b
        → Marked state a b
    pub size : free state.0 + length state.1 ≤ 2 * (length nodes * length nodes)

  pub first_rows-IsFirst :
      let size = length nodes in
      IsFirst (first_rows size 0 nodes (replicate size (replicate size false), []))
  first_rows-IsFirst =
      let size = length nodes in
      let start : IsMarking nodes (replicate size (replicate size false), []) = record {
        square = first-IsSquare size;
        symmetric = λ a b h. absurd (unmarked_first size a b h);
        inside = λ a b h. absurd (unmarked_first size a b h);
        differ = λ a b h. absurd (unmarked_first size a b h);
        in_queue = tt;
      } in
      let (a, here) =
        first_rows-Prolongs size 0 (replicate size (replicate size false), []) start
          (omega arith) in
      record {
        marking = a.marking;
        waiting = λ x y h. elim (a.later.new x y h) [
          | inl k ↦ absurd (unmarked_first size x y k)
          | inr k ↦ k
        ];
        finals = λ x y hx hy d. elim (Bool-cases (ltb y x)) [
          | inl l ↦ here x y (omega arith) (omega (arith, hx)) (ltb→lt y x l) d
          | inr l ↦ elim (Bool-cases (x == y)) [
            | inl e ↦ absurd (d (ap (final_of nodes) ((==_iff x y).0 e)))
            | inr e ↦
                a.marking.symmetric y x
                  (here y x (omega arith) (omega (arith, hy)) (ground arith) (λ q. d (sym q)))
          ]
        ];
        size = omega (arith, a.short, a.later.less_free, free-first size);
      }
