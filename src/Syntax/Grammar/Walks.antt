-- ===== src/Syntax/Grammar/Walks.antt =====
-- src/syntax/grammar/Grammar.cpp, `check_unreachable` and `check`: the walk from the start, which gives
-- an entry without rules to each nonterminal that it meets and that has none.
use recursive_functions.Prelude.{
  ℕ, zero, suc, ◌≡◌, ◌⊎◌, inl, inr, ◌↔◌, refl, ap, sym, subst, List, [], ◌∷◌, ◌++◌, Bool, true,
  false, Option, none, some, ◌==◌, if◌then◌else◌, length, contains, insert, merge_into, arith,
  Bool-cases, contains-insert, contains-append,
}
use recursive_functions.Syntax.Grammar.{
  terminal, nonterminal, Production, Rule, Entry, Grammar, keys, get_productions_for,
}
use recursive_functions.Syntax.Grammar.Derivation.{Mentions, Uses}
use recursive_functions.Syntax.Grammar.Checks.{check_non_producing}

abbrev pub offer_parts : List ℕ → List ℕ → Production → List ℕ
offer_parts reachable next [] = next
offer_parts reachable next (terminal t ∷ ps) = offer_parts reachable next ps
offer_parts reachable next (nonterminal n ∷ ps) =
    offer_parts reachable (if contains reachable n then next else insert n next) ps

abbrev pub offer_rules : List ℕ → List ℕ → List Rule → List ℕ
offer_rules reachable next [] = next
offer_rules reachable next (r ∷ rs) =
    offer_rules reachable (offer_parts reachable next r.production) rs

-- `productions_[non_terminal]` makes the entry that is missing.
abbrev pub with_entry : List Entry → ℕ → List Entry
with_entry es n =
    if contains (keys es) n then es else es ++ (record { nonterm = n; rules = [] }) ∷ []

-- The `for` over the nonterminals of the last round: the entries, and what is to be processed.
abbrev pub visit : List ℕ → List ℕ → List Entry → List ℕ → List Entry × List ℕ
visit reachable [] es next = (es, next)
visit reachable (n ∷ ns) es next =
    let es = with_entry es n in
    visit reachable ns es (offer_rules reachable next (get_productions_for es n))

-- `while (!to_process.empty())`; `none` is out of fuel.
unfoldable pub walk_loop : ℕ → List ℕ → List ℕ → List Entry → Option (List ℕ × List Entry)
walk_loop fuel reachable [] es = some (reachable, es)
walk_loop zero reachable (n ∷ ns) es = none
walk_loop (suc fuel) reachable (n ∷ ns) es =
    let merged = merge_into reachable (n ∷ ns) in
    let visited = visit merged (n ∷ ns) es [] in walk_loop fuel merged visited.1 visited.0

abbrev pub mentioned : Production → List ℕ
mentioned [] = []
mentioned (terminal t ∷ ps) = mentioned ps
mentioned (nonterminal n ∷ ps) = n ∷ mentioned ps

abbrev pub mentioned_rules : List Rule → List ℕ
mentioned_rules [] = []
mentioned_rules (r ∷ rs) = mentioned r.production ++ mentioned_rules rs

abbrev pub mentioned_all : List Entry → List ℕ
mentioned_all [] = []
mentioned_all (e ∷ es) = mentioned_rules e.rules ++ mentioned_all es

-- The walk, with a round for each nonterminal that the grammar mentions, and two more.
abbrev pub walk : Grammar → Option (List ℕ × List Entry)
walk g =
    walk_loop (suc (suc (length (mentioned_all g.productions)))) [] (g.start ∷ []) g.productions

abbrev pub all_reached : List ℕ × List Entry → Bool × List Entry
all_reached (reachable, es) = (length reachable == length es, es)

-- Whether the check passes, `false` where it throws, and the entries after it.
unfoldable pub check_unreachable : Grammar → Option (Bool × List Entry)
check_unreachable g = elim (walk g) [ none ↦ none | some reached ↦ some (all_reached reached) ]

pub data Verdict : Type 0 where
  passed : List Entry → Verdict
  non_producing : Verdict
  unreachable_found : Verdict

abbrev pub unreachable_verdict : Option (Bool × List Entry) → Option Verdict
unreachable_verdict none = none
unreachable_verdict (some (true, es)) = some (passed es)
unreachable_verdict (some (false, es)) = some unreachable_found

abbrev pub check_verdict : Grammar → Option Bool → Option Verdict
check_verdict g none = none
check_verdict g (some false) = some non_producing
check_verdict g (some true) = unreachable_verdict (check_unreachable g)

unfoldable pub check : Grammar → Option Verdict
check g = check_verdict g (check_non_producing g.productions)

offer_parts_iff :
    (reachable next : List ℕ) (p : Production) (y : ℕ)
    → (contains (offer_parts reachable next p) y ≡ true)
      ↔ ((contains next y ≡ true) ⊎ (Mentions p y × (contains reachable y ≡ false)))
offer_parts_iff reachable next [] y = (inl, λ h. elim h [ inl a ↦ a | inr a ↦ elim a.0 [ ] ])
offer_parts_iff reachable next (terminal t ∷ ps) y = offer_parts_iff reachable next ps y
offer_parts_iff reachable next (nonterminal n ∷ ps) y =
    let next' = (if contains reachable n then next else insert n next) in
    let r = offer_parts_iff reachable next' ps y in
    let i = contains-insert n next y in
    (
      λ h. elim (r.0 h) [
        | inl a ↦ elim (Bool-cases (contains reachable n)) [
          | inl k ↦ inl (ground arith)
          | inr k ↦ elim (i.0 (ground arith)) [
            | inl same ↦ inr (inl same, subst (λ m. contains reachable m ≡ false) same k)
            | inr old ↦ inl old
          ]
        ]
        | inr a ↦ inr (inr a.0, a.1)
      ],
      λ h. elim h [
        | inl a ↦ r.1 (inl (ground arith))
        | inr (inl same, new) ↦
            let fresh = subst (λ m. contains reachable m ≡ false) (sym same) new in
            r.1 (inl (ground arith))
        | inr (inr m, new) ↦ r.1 (inr (m, new))
      ],
    )

pub offer_rules_iff :
    (reachable next : List ℕ) (rs : List Rule) (y : ℕ)
    → (contains (offer_rules reachable next rs) y ≡ true)
      ↔ ((contains next y ≡ true) ⊎ (Uses rs y × (contains reachable y ≡ false)))
offer_rules_iff reachable next [] y = (inl, λ h. elim h [ inl a ↦ a | inr a ↦ elim a.0 [ ] ])
offer_rules_iff reachable next (r ∷ rs) y =
    let next' = offer_parts reachable next r.production in
    let s = offer_rules_iff reachable next' rs y in
    let t = offer_parts_iff reachable next r.production y in
    (
      λ h. elim (s.0 h) [
        | inl a ↦ elim (t.0 a) [ inl b ↦ inl b | inr b ↦ inr (inl b.0, b.1) ]
        | inr a ↦ inr (inr a.0, a.1)
      ],
      λ h. elim h [
        | inl a ↦ s.1 (inl (t.1 (inl a)))
        | inr (inl m, new) ↦ s.1 (inl (t.1 (inr (m, new))))
        | inr (inr m, new) ↦ s.1 (inr (m, new))
      ],
    )

pub get-with_entry :
    (es : List Entry) (n m : ℕ) → get_productions_for (with_entry es n) m ≡ get_productions_for es m
get-with_entry es n m = elim (Bool-cases (contains (keys es) n)) [
  | inl e ↦ rw e refl
  | inr e ↦ rw e (get-snoc es m)
]
  where
    get-snoc :
        (es : List Entry) (m : ℕ)
        → get_productions_for (es ++ (record { nonterm = n; rules = [] }) ∷ []) m
          ≡ get_productions_for es m
    get-snoc [] m = ground arith
    get-snoc (e ∷ es) m = let r = get-snoc es m in ground arith

pub keys-append : (es ds : List Entry) → keys (es ++ ds) ≡ keys es ++ keys ds
keys-append [] ds = refl
keys-append (e ∷ es) ds = ap (λ ks. e.nonterm ∷ ks) (keys-append es ds)

pub keys-with_entry :
    (es : List Entry) (n m : ℕ)
    → (contains (keys (with_entry es n)) m ≡ true) ↔ ((n ≡ m) ⊎ (contains (keys es) m ≡ true))
keys-with_entry es n m = elim (Bool-cases (contains (keys es) n)) [
  | inl e ↦ rw e (ground arith)
  | inr e ↦
      let a = keys-append es ((record { nonterm = n; rules = [] }) ∷ []) in
      let c = contains-append (keys es) (n ∷ []) m in rw (e, a, c) (ground arith)
]
