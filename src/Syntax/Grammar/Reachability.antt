-- ===== src/Syntax/Grammar/Reachability.antt =====
-- src/syntax/grammar/Grammar.cpp, `check_unreachable` and `check`: the walk ends, and finds what the start reaches.
use recursive_functions.Prelude.{
  ℕ, zero, suc, ◌+◌, ◌<◌, ◌≡◌, ◌⊎◌, inl, inr, ◌↔◌, refl, sym, subst, List, [], ◌∷◌, Bool, true,
  false, some, ◌==◌, ==_iff, length, contains, merge_into, Distinct, arith, Bool-cases, Subset,
  contains-merge, Distinct-merge, Distinct-length, length-merge_lt, Subset-equal,
}
use recursive_functions.Syntax.Grammar.{Entry, Grammar, keys, get_productions_for}
use recursive_functions.Syntax.Grammar.Derivation.{Uses}
use recursive_functions.Syntax.Grammar.Checks.{length-keys}
use recursive_functions.Syntax.Grammar.Walks.{visit, walk_loop, mentioned_all, check_unreachable}
use recursive_functions.Syntax.Grammar.Visits.{Reaches, here, use_in, visit-IsVisited, get-contains}

module _ (es : List Entry) (start : ℕ) where
  universe : List ℕ
  universe = start ∷ mentioned_all es

  Reaches-universe : (n : ℕ) → Reaches es start n → contains universe n ≡ true
  unfolding universe
  Reaches-universe n here = ground arith
  Reaches-universe n (use_in {n = k} r u) = let c = get-contains es k n u in ground arith

  -- What holds before each round of the walk.
  record IsRound (reachable next : List ℕ) (now : List Entry) : Type 0 where
    distinct : Distinct reachable
    sound : (n : ℕ) → contains reachable n ≡ true → Reaches es start n
    next_sound : (n : ℕ) → contains next n ≡ true → Reaches es start n
    new : (n : ℕ) → contains next n ≡ true → contains reachable n ≡ false
    started : (contains reachable start ≡ true) ⊎ (contains next start ≡ true)
    closed :
        (x y : ℕ)
        → contains reachable x ≡ true
        → Uses (get_productions_for es x) y
        → (contains reachable y ≡ true) ⊎ (contains next y ≡ true)
    rules : (m : ℕ) → get_productions_for now m ≡ get_productions_for es m
    entries :
        (m : ℕ)
        → (contains (keys now) m ≡ true)
          ↔ ((contains reachable m ≡ true) ⊎ (contains (keys es) m ≡ true))
    entries_distinct : Distinct (keys now)

  IsRound-visit :
      (reachable next : List ℕ) (now : List Entry)
      → IsRound reachable next now
      → (let merged = merge_into reachable next in
          let after = visit merged next now [] in IsRound merged after.1 after.0)
  IsRound-visit reachable next now r =
      let merged = merge_into reachable next in
      let after = visit merged next now [] in
      let v = visit-IsVisited merged next now [] in
      let both = contains-merge reachable next in
      let joined : (n : ℕ) → contains merged n ≡ true → Reaches es start n =
        λ n h. elim ((both n).0 h) [ inl a ↦ r.sound n a | inr a ↦ r.next_sound n a ] in
      record {
        distinct = Distinct-merge reachable next r.distinct;
        sound = joined;
        next_sound = λ y h. elim (v.found y h) [
          | inl a ↦ absurd (ground arith)
          | inr (x, m, u, new) ↦ use_in (r.next_sound x m) (subst (λ rs. Uses rs y) (r.rules x) u)
        ];
        new =
            λ y h. elim (v.found y h) [ inl a ↦ absurd (ground arith) | inr (x, m, u, new) ↦ new ];
        started = inl ((both start).1 r.started);
        closed = λ x y h u. elim (Bool-cases (contains merged y)) [
          | inl a ↦ inl a
          | inr a ↦ elim ((both x).0 h) [
            | inl old ↦ inl ((both y).1 (r.closed x y old u))
            | inr m ↦ inr (v.offered x y m (subst (λ rs. Uses rs y) (sym (r.rules x)) u) a)
          ]
        ];
        rules = λ m. rw (v.rules m, r.rules m) refl;
        entries = λ m. let a = v.entries m in let b = r.entries m in let c = both m in ground arith;
        entries_distinct = v.distinct r.entries_distinct;
      }

  loop-IsRound :
      (fuel : ℕ) (reachable next : List ℕ) (now : List Entry)
      → IsRound reachable next now
      → length universe < length reachable + fuel
      → (result : List ℕ) × (after : List Entry) × (walk_loop fuel reachable next now
          ≡ some (result, after))
        × IsRound result [] after
  unfolding walk_loop
  loop-IsRound fuel reachable [] now r h = (reachable, now, refl, r)
  loop-IsRound zero reachable (n ∷ ns) now r h = absurd (
      omega (
        arith,
        Distinct-length reachable universe r.distinct (λ m k. Reaches-universe m (r.sound m k)),
      ))
  loop-IsRound (suc fuel) reachable (n ∷ ns) now r h =
      let merged = merge_into reachable (n ∷ ns) in
      let after = visit merged (n ∷ ns) now [] in
      let more = length-merge_lt reachable (n ∷ ns) n (ground arith) (r.new n (ground arith)) in
      loop-IsRound fuel merged after.1 after.0 (IsRound-visit reachable (n ∷ ns) now r)
        (omega (arith, more))

  IsRound-Reaches :
      (result : List ℕ) (after : List Entry)
      → IsRound result [] after
      → {n : ℕ} → Reaches es start n
      → contains result n ≡ true
  IsRound-Reaches result after r here = elim r.started [ inl a ↦ a | inr a ↦ absurd (ground arith) ]
  IsRound-Reaches result after r (use_in {n} {m} h u) =
      elim (r.closed n m (IsRound-Reaches result after r h) u) [
        | inl a ↦ a
        | inr a ↦ absurd (ground arith)
      ]

  first-IsRound : Distinct (keys es) → IsRound [] (start ∷ []) es
  first-IsRound d = record {
    distinct = tt;
    sound = λ n h. absurd (ground arith);
    next_sound = λ n h. subst (Reaches es start) (ground arith) here;
    new = λ n h. refl;
    started = inr (ground arith);
    closed = λ x y h. absurd (ground arith);
    rules = λ m. refl;
    entries = λ m. ground arith;
    entries_distinct = d;
  }

-- On a grammar with one entry for each nonterminal the check ends. It passes exactly when the start
-- reaches every nonterminal that has an entry; afterwards the entries are those from before and one
-- for each nonterminal that the start reaches, and no rule has changed.
pub check_unreachable-Reaches :
    (g : Grammar)
    → Distinct (keys g.productions)
    → (passes : Bool) × (after : List Entry) × (check_unreachable g ≡ some (passes, after))
      × ((passes ≡ true)
          ↔ ((n : ℕ) → contains (keys g.productions) n ≡ true → Reaches g.productions g.start n))
      × ((n : ℕ)
          → (contains (keys after) n ≡ true)
            ↔ (Reaches g.productions g.start n ⊎ (contains (keys g.productions) n ≡ true)))
      × ((n : ℕ) → get_productions_for after n ≡ get_productions_for g.productions n)
unfolding check_unreachable universe
check_unreachable-Reaches g d =
    let es = g.productions in
    let (result, after, e, r) =
      loop-IsRound es g.start (suc (suc (length (mentioned_all es)))) [] (g.start ∷ []) es
        (first-IsRound es g.start d) (omega arith) in
    let complete : (n : ℕ) → Reaches es g.start n → contains result n ≡ true =
      λ n h. IsRound-Reaches es g.start result after r h in
    let inside : Subset result (keys after) = λ n h. (r.entries n).1 (inl h) in
    let sizes = ==_iff (length result) (length after) in
    let size = length-keys after in
    (
      length result == length after,
      after,
      rw (check_unreachable, e) refl,
      (
        λ h n k. r.sound n (
            Subset-equal result (keys after) r.distinct inside (omega (arith, sizes.0 h, size)) n
              ((r.entries n).1 (inr k))),
        λ h. sizes.1 (
            omega (
              arith,
              size,
              Distinct-length result (keys after) r.distinct inside,
              Distinct-length (keys after) result r.entries_distinct
                  (λ n k. elim ((r.entries n).0 k) [ inl a ↦ a | inr a ↦ complete n (h n a) ]),
            )),
      ),
      λ n. (
        λ h. elim ((r.entries n).0 h) [ inl a ↦ inl (r.sound n a) | inr a ↦ inr a ],
        λ h. elim h [
          | inl a ↦ (r.entries n).1 (inl (complete n a))
          | inr a ↦ (r.entries n).1 (inr a)
        ],
      ),
      r.rules,
    )
