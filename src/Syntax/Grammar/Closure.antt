-- ===== src/Syntax/Grammar/Closure.antt =====
-- src/syntax/grammar/Grammar.cpp, `check_non_producing` and `check_epsilon_producing`: the loops end,
-- and find exactly the nonterminals that derive a text.
use recursive_functions.Prelude.{
  ℕ, zero, suc, ◌+◌, ◌<◌, ◌≡◌, ◌⊎◌, inl, inr, ◌↔◌, refl, List, [], ◌∷◌, Bool, true, false, not,
  some, ◌==◌, length, contains, merge_into, Distinct, arith, Bool-cases, Subset, contains-merge,
  Distinct-merge, Distinct-length, Subset-equal, length-merge_lt, ==_iff, &&-eq-true,
}
use recursive_functions.Syntax.Grammar.{
  terminal, nonterminal, Production, is_terminal, is_empty, Rule, Entry, keys,
}
use recursive_functions.Syntax.Grammar.Derivation.{
  HasRule, Derives, DerivesAll, by_rule, no_part, token_part, nonterm_part,
}
use recursive_functions.Syntax.Grammar.Checks.{
  all_known, scan, is_new, closure_loop, check_non_producing, check_epsilon_producing, scan_sound,
  first_producing_lem, first_epsilon_lem, any_rule, length-keys, scan_complete, HasRule-keys,
}

module _ (allowed : Bool) (es : List Entry) where
  Sound : List ℕ → Type 0
  Sound known = (n : ℕ) → contains known n ≡ true → Derives allowed es n

  -- Every rule whose parts are known has a nonterminal that is known, or is to be processed.
  Closes : List ℕ → List ℕ → Type 0
  Closes known next =
      (n : ℕ) (p : Production)
      → HasRule es n p
      → all_known allowed known p ≡ true
      → (contains known n ≡ true) ⊎ (contains next n ≡ true)

  -- What holds before each round.
  record IsRound (known next : List ℕ) : Type 0 where
    distinct : Distinct known
    keyed : Subset known (keys es)
    next_keyed : Subset next (keys es)
    new : (n : ℕ) → contains next n ≡ true → contains known n ≡ false
    sound : Sound known
    next_sound : Sound next
    closes : Closes known next

  all_known-DerivesAll :
      (known : List ℕ) (p : Production)
      → Sound known
      → all_known allowed known p ≡ true
      → DerivesAll allowed es p
  unfolding Sound
  all_known-DerivesAll known [] s h = no_part
  all_known-DerivesAll known (terminal t ∷ ps) s h =
      let (a, b) = &&-eq-true allowed (all_known allowed known ps) h in
      token_part t a (all_known-DerivesAll known ps s b)
  all_known-DerivesAll known (nonterminal n ∷ ps) s h =
      let (a, b) = &&-eq-true (contains known n) (all_known allowed known ps) h in
      nonterm_part n (s n a) (all_known-DerivesAll known ps s b)

  -- The walk after a merge starts the next round.
  IsRound-scan :
      (known : List ℕ)
      → Distinct known
      → Subset known (keys es)
      → Sound known
      → IsRound known (scan (is_new allowed known) es)
  unfolding Sound Closes
  IsRound-scan known d k s = record {
    distinct = d;
    keyed = k;
    next_keyed =
        λ n h. let (p, m, t) = scan_sound (is_new allowed known) es n h in HasRule-keys es n p m;
    new = λ n h. let (p, m, t) = scan_sound (is_new allowed known) es n h in ground arith;
    sound = s;
    next_sound = λ n h.
        let (p, m, t) = scan_sound (is_new allowed known) es n h in
        let (a, b) = &&-eq-true (all_known allowed known p) (not (contains known n)) t in
        by_rule p m (all_known-DerivesAll known p s a);
    closes = λ n p m a. elim (Bool-cases (contains known n)) [
      | inl e ↦ inl e
      | inr e ↦ inr (scan_complete (is_new allowed known) es n p m (ground arith))
    ];
  }

  -- The result of the loop: nothing else is closed under the rules and derives.
  abbrev IsClosure : List ℕ → Type 0
  IsClosure known = Distinct known × Subset known (keys es) × Sound known × Closes known []

  loop-IsClosure :
      (fuel : ℕ) (known next : List ℕ)
      → IsRound known next
      → length (keys es) < length known + fuel
      → (result : List ℕ) × (closure_loop allowed es fuel known next ≡ some result)
        × IsClosure result
  unfolding closure_loop Sound Closes
  loop-IsClosure fuel known [] r h = (known, refl, (r.distinct, r.keyed, r.sound, r.closes))
  loop-IsClosure zero known (n ∷ ns) r h =
      absurd (omega (arith, Distinct-length known (keys es) r.distinct r.keyed))
  loop-IsClosure (suc fuel) known (n ∷ ns) r h =
      let merged = merge_into known (n ∷ ns) in
      let more = length-merge_lt known (n ∷ ns) n (ground arith) (r.new n (ground arith)) in
      loop-IsClosure fuel merged (scan (is_new allowed merged) es)
        (IsRound-scan merged (Distinct-merge known (n ∷ ns) r.distinct)
          (λ m i. elim ((contains-merge known (n ∷ ns) m).0 i) [
            | inl a ↦ r.keyed m a
            | inr a ↦ r.next_keyed m a
          ])
          (λ m i. elim ((contains-merge known (n ∷ ns) m).0 i) [
            | inl a ↦ r.sound m a
            | inr a ↦ r.next_sound m a
          ]))
        (omega (arith, more))

  mutual
    unfolding Closes

    Derives-contains :
        (known : List ℕ)
        → Closes known []
        → {n : ℕ} → Derives allowed es n
        → contains known n ≡ true
    Derives-contains known c (by_rule {n} p m d) = elim (c n p m (DerivesAll-all_known known c d)) [
      | inl e ↦ e
      | inr e ↦ absurd (ground arith)
    ]

    DerivesAll-all_known :
        (known : List ℕ)
        → Closes known []
        → {p : Production} → DerivesAll allowed es p
        → all_known allowed known p ≡ true
    DerivesAll-all_known known c no_part = refl
    DerivesAll-all_known known c (token_part t a d) =
        let r = DerivesAll-all_known known c d in ground arith
    DerivesAll-all_known known c (nonterm_part n a d) =
        let r = DerivesAll-all_known known c d in let l = Derives-contains known c a in ground arith

  -- The set of those that derive a text, found with one round more than there are entries.
  IsLeast : List ℕ → Type 0
  IsLeast known =
      Distinct known
      × Subset known (keys es)
      × ((n : ℕ) → (contains known n ≡ true) ↔ Derives allowed es n)

  closure_loop_lem :
      (result : List ℕ) × (closure_loop allowed es
          (suc (length es))
          []
          (scan (is_new allowed []) es)
        ≡ some result)
      × IsLeast result
  unfolding IsLeast Sound Closes
  closure_loop_lem =
      let (result, e, (d, k, s, c)) =
        loop-IsClosure (suc (length es)) [] (scan (is_new allowed []) es)
          (IsRound-scan [] tt (λ n h. absurd (ground arith)) (λ n h. absurd (ground arith)))
          (omega (arith, length-keys es)) in
      (result, e, (d, k, λ n. (s n, λ h. Derives-contains result c h)))

any_rule-ext :
    (s t : Production → Bool) (rs : List Rule)
    → ((p : Production) → s p ≡ t p)
    → any_rule s rs ≡ any_rule t rs
any_rule-ext s t [] h = refl
any_rule-ext s t (r ∷ rs) h = rw (h r.production, any_rule-ext s t rs h) refl

scan-ext :
    (s t : ℕ → Production → Bool) (es : List Entry)
    → ((n : ℕ) (p : Production) → s n p ≡ t n p)
    → scan s es ≡ scan t es
scan-ext s t [] h = refl
scan-ext s t (e ∷ es) h =
    rw (any_rule-ext (s e.nonterm) (t e.nonterm) e.rules (h e.nonterm), scan-ext s t es h) refl

first_round :
    (allowed : Bool) (first : Production → Bool) (es : List Entry)
    → ((p : Production) → first p ≡ all_known allowed [] p)
    → scan (λ n p. first p) es ≡ scan (is_new allowed []) es
first_round allowed first es h =
    scan-ext (λ n p. first p) (is_new allowed []) es (λ n p. let e = h p in ground arith)

-- On a grammar with one entry for each nonterminal the check ends, and it passes exactly when every
-- nonterminal that has an entry derives some text of tokens.
pub check_non_producing-Derives :
    (es : List Entry)
    → Distinct (keys es)
    → (passes : Bool) × (check_non_producing es ≡ some passes)
      × ((passes ≡ true) ↔ ((n : ℕ) → contains (keys es) n ≡ true → Derives true es n))
unfolding check_non_producing IsLeast
check_non_producing-Derives es d =
    let (known, e, (distinct, keyed, least)) = closure_loop_lem true es in
    let same = first_round true is_terminal es first_producing_lem in
    (
      length known == length es,
      rw (check_non_producing, same, e) refl,
      (
        λ h n k. (least n).0 (
            Subset-equal known (keys es) distinct keyed
              (omega (arith, (==_iff (length known) (length es)).0 h, length-keys es)) n k),
        λ h. (==_iff (length known) (length es)).1 (
            omega (
              arith,
              Distinct-length known (keys es) distinct keyed,
              length-keys es,
              Distinct-length (keys es) known d (λ n k. (least n).1 (h n k)),
            )),
      ),
    )

-- The check for nonterminals that derive the empty text ends, and it passes exactly when there is none.
pub check_epsilon_producing-Derives :
    (es : List Entry)
    → (passes : Bool) × (check_epsilon_producing es ≡ some passes)
      × ((passes ≡ true) ↔ ((n : ℕ) → ¬ Derives false es n))
unfolding check_epsilon_producing IsLeast
check_epsilon_producing-Derives es =
    let (known, e, (distinct, keyed, least)) = closure_loop_lem false es in
    let same = first_round false is_empty es first_epsilon_lem in
    elim known
        as (λ known.
          (closure_loop false es (suc (length es)) [] (scan (is_new false []) es) ≡ some known)
          → ((n : ℕ) → (contains known n ≡ true) ↔ Derives false es n)
          → (passes : Bool) × (check_epsilon_producing es ≡ some passes)
            × ((passes ≡ true) ↔ ((n : ℕ) → ¬ Derives false es n))) [
              | [] ↦ λ e least. (
                true,
                rw (check_epsilon_producing, same, e) refl,
                (λ h n d. absurd (ground (arith, (least n).1 d)), λ h. refl),
              )
              | n ∷ ns ↦ λ e least. (
                false,
                rw (check_epsilon_producing, same, e) refl,
                (λ h. absurd (cc), λ h. elim (h n ((least n).0 (ground arith))) [ ]),
              )
            ]
      e least
