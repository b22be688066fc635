-- ===== src/Syntax/Grammar/Numbering.antt =====
-- src/syntax/grammar/Grammar.cpp: how the rules are numbered and kept apart.
use recursive_functions.Prelude.{
  ℕ, ◌+◌, ◌≡◌, ◌≤◌, ◌↔◌, ◌⊎◌, inl, inr, refl, ap, sym, subst, List, [], ◌∷◌, ◌++◌, true, false,
  ◌&&◌, arith, ltb, ◌==◌, ==_iff, if◌then◌else◌, get_elem?, contains, Distinct, Bool-cases,
  &&-eq-true,
}
use recursive_functions.Lexis.Token.{TokenType, token_index}
use recursive_functions.Lexis.Token.{all_tokens, get_elem?-token_index}
use recursive_functions.Syntax.Grammar.{
  Part, terminal, nonterminal, Production, as_number, number_eq, production_eq, Rule, Entry,
  Grammar, get_productions_for, has_production, push_rule, add_rule, keys,
}

-- How many rules have an index.
abbrev pub index_count : ℕ → List Rule → ℕ
index_count i [] = 0
index_count i (r ∷ rs) = (if r.index == i then 1 else 0) + index_count i rs

abbrev pub occurrences : ℕ → List Entry → ℕ
occurrences i [] = 0
occurrences i (e ∷ es) = index_count i e.rules + occurrences i es

-- How many rules have a production.
abbrev pub copies : Production → List Rule → ℕ
copies p [] = 0
copies p (r ∷ rs) = (if production_eq r.production p then 1 else 0) + copies p rs

-- Every nonterminal has one entry, every index below the count belongs to one rule, and no
-- nonterminal has a production twice.
pub record IsNumbered (g : Grammar) : Type 0 where
  pub entries : Distinct (keys g.productions)
  pub indices : (i : ℕ) → occurrences i g.productions ≡ (if ltb i g.productions_count then 1 else 0)
  pub once : (n : ℕ) (p : Production) → copies p (get_productions_for g.productions n) ≤ 1

token_index_inj : (s t : TokenType) → token_index s ≡ token_index t → s ≡ t
token_index_inj s t e =
    cc (get_elem?-token_index s, get_elem?-token_index t, ap (get_elem? all_tokens) e)

number_eq_sound : (p q : Part) → number_eq (as_number p) (as_number q) ≡ true → p ≡ q
number_eq_sound (terminal s) (terminal t) h =
    ap terminal (token_index_inj s t ((==_iff (token_index s) (token_index t)).0 h))
number_eq_sound (terminal s) (nonterminal n) h = absurd (cc)
number_eq_sound (nonterminal n) (terminal t) h = absurd (cc)
number_eq_sound (nonterminal n) (nonterminal m) h =
    ap nonterminal (omega (arith, (==_iff (n + 1) (m + 1)).0 h))

-- Productions that compare equal are equal, and conversely.
pub production_eq_sound : (p q : Production) → production_eq p q ≡ true → p ≡ q
production_eq_sound [] [] h = refl
production_eq_sound [] (q ∷ qs) h = absurd (cc)
production_eq_sound (p ∷ ps) [] h = absurd (cc)
production_eq_sound (p ∷ ps) (q ∷ qs) h =
    let (a, b) = &&-eq-true (number_eq (as_number p) (as_number q)) (production_eq ps qs) h in
    cc (number_eq_sound p q a, production_eq_sound ps qs b)

index_count-snoc :
    (i : ℕ) (rs : List Rule) (r : Rule)
    → index_count i (rs ++ r ∷ []) ≡ index_count i rs + (if r.index == i then 1 else 0)
index_count-snoc i [] r = omega arith
index_count-snoc i (x ∷ rs) r = omega (arith, index_count-snoc i rs r)

occurrences-push :
    (i : ℕ) (es : List Entry) (n : ℕ) (r : Rule)
    → occurrences i (push_rule es n r) ≡ occurrences i es + (if r.index == i then 1 else 0)
occurrences-push i [] n r = ground arith
occurrences-push i (e ∷ es) n r =
    let s = index_count-snoc i e.rules r in let t = occurrences-push i es n r in ground arith

copies-snoc :
    (p : Production) (rs : List Rule) (r : Rule)
    → copies p (rs ++ r ∷ []) ≡ copies p rs + (if production_eq r.production p then 1 else 0)
copies-snoc p [] r = omega arith
copies-snoc p (x ∷ rs) r = omega (arith, copies-snoc p rs r)

get-push :
    (es : List Entry) (from : ℕ) (r : Rule) (n : ℕ)
    → get_productions_for (push_rule es from r) n
      ≡ (if from == n then get_productions_for es n ++ r ∷ [] else get_productions_for es n)
get-push [] from r n = ground arith
get-push (e ∷ es) from r n = let t = get-push es from r n in ground arith

keys-push :
    (es : List Entry) (from : ℕ) (r : Rule) (n : ℕ)
    → (contains (keys (push_rule es from r)) n ≡ true)
      ↔ ((from ≡ n) ⊎ (contains (keys es) n ≡ true))
keys-push [] from r n = ground arith
keys-push (e ∷ es) from r n = let t = keys-push es from r n in ground arith

Distinct-push :
    (es : List Entry) (from : ℕ) (r : Rule)
    → Distinct (keys es)
    → Distinct (keys (push_rule es from r))
Distinct-push [] from r d = (refl, tt)
Distinct-push (e ∷ es) from r (new, d) =
    let t = keys-push es from r e.nonterm in let u = Distinct-push es from r d in ground arith

has_production-copies_yes :
    (to : Production) (rs : List Rule) → has_production to rs ≡ true → 1 ≤ copies to rs
has_production-copies_yes to [] h = absurd (ground arith)
has_production-copies_yes to (r ∷ rs) h = let t = has_production-copies_yes to rs in ground arith

has_production-copies_no :
    (to : Production) (rs : List Rule) → has_production to rs ≡ false → copies to rs ≡ 0
has_production-copies_no to [] h = refl
has_production-copies_no to (r ∷ rs) h = let t = has_production-copies_no to rs in ground arith

-- The rules of a nonterminal after a rule has been added.
abbrev pub Added : Grammar → ℕ → Production → Grammar → Type 0
Added g from to after =
    (n : ℕ) (p : Production)
    → copies p (get_productions_for after.productions n) ≡ (
        if (from == n) && production_eq to p
        then 1
        else copies p (get_productions_for g.productions n))

add_rule-old :
    (g : Grammar) (from : ℕ) (to : Production)
    → IsNumbered g
    → has_production to (get_productions_for g.productions from) ≡ true
    → Added g from to g
add_rule-old g from to i h n p = elim (Bool-cases ((from == n) && production_eq to p)) [
  | inl e ↦
      let (a, b) = &&-eq-true (from == n) (production_eq to p) e in
      let same = (==_iff from n).0 a in
      let equal = production_eq_sound to p b in
      let present = has_production-copies_yes to (get_productions_for g.productions from) h in
      rw (e, sym same, sym equal) (omega (arith, present, i.once from to))
  | inr e ↦ rw e refl
]

add_rule-new :
    (g : Grammar) (from : ℕ) (to : Production) (index : ℕ)
    → has_production to (get_productions_for g.productions from) ≡ false
    → (n : ℕ) (p : Production)
    → copies p (
        get_productions_for
          (push_rule g.productions from (record { production = to; index = index }))
          n)
      ≡ (if (from == n) && production_eq to p
          then 1
          else copies p (get_productions_for g.productions n))
add_rule-new g from to index h n p =
    let rule : Rule = (record { production = to; index = index }) in
    let got = get-push g.productions from rule n in
    let more = copies-snoc p (get_productions_for g.productions n) rule in
    let zero = has_production-copies_no to (get_productions_for g.productions from) h in
    elim (Bool-cases (from == n)) [
      | inl a ↦
          let same = (==_iff from n).0 a in
          elim (Bool-cases (production_eq to p)) [
            | inl b ↦
                let equal = production_eq_sound to p b in
                let none_here =
                  subst (λ q. copies q (get_productions_for g.productions from) ≡ 0) equal zero in
                let none_there =
                  subst (λ m. copies p (get_productions_for g.productions m) ≡ 0) same none_here in
                rw (got, a, more) (ground (arith, none_there))
            | inr b ↦ rw (got, a, more) (ground arith)
          ]
      | inr a ↦ rw (got, a) refl
    ]

-- The grammar after a rule that it did not have: the rule has the next index, and all else stays.
abbrev pub Takes : Grammar → ℕ → Production → Grammar → Type 0
Takes g from to after =
    (after.start ≡ g.start)
    × (after.nonterminals_count ≡ g.nonterminals_count)
    × (after.productions_count ≡ g.productions_count + 1)
    × ((n : ℕ)
        → (contains (keys after.productions) n ≡ true)
          ↔ ((from ≡ n) ⊎ (contains (keys g.productions) n ≡ true)))
    × ((n : ℕ)
        → get_productions_for after.productions n ≡ (
            if from == n
            then get_productions_for g.productions n
              ++ record { production = to; index = g.productions_count } ∷ []
            else get_productions_for g.productions n))

-- Where the nonterminal has an equal production the grammar stays as it is, and else it takes the rule.
abbrev pub HasAdded : Grammar → ℕ → Production → Grammar → Type 0
HasAdded g from to after =
    ((1 ≤ copies to (get_productions_for g.productions from)) × (after ≡ g))
    ⊎ ((copies to (get_productions_for g.productions from) ≡ 0) × Takes g from to after)

-- A rule that is added keeps the numbering, in which every nonterminal has one entry, every index
-- below the count belongs to one rule, and no nonterminal has a production twice. Where the
-- nonterminal has an equal production already, the grammar stays as it is; where it has none, the rule
-- is appended to those of the nonterminal and takes the next index, which is the old count, the count
-- is one more, an entry is made for that nonterminal at most, and the rules of the others, the start
-- and the count of the nonterminals stay. Either way the nonterminal has the production once, and
-- every other production as often as before.
pub add_rule-IsNumbered :
    (g : Grammar) (from : ℕ) (to : Production)
    → IsNumbered g
    → IsNumbered (add_rule g from to)
      × Added g from to (add_rule g from to)
      × HasAdded g from to (add_rule g from to)
unfolding add_rule
add_rule-IsNumbered g from to i =
    elim (Bool-cases (has_production to (get_productions_for g.productions from))) [
      | inl h ↦
          let present = has_production-copies_yes to (get_productions_for g.productions from) h in
          rw h (i, add_rule-old g from to i h, inl (present, refl))
      | inr h ↦
          let rule : Rule = (record { production = to; index = g.productions_count }) in
          let added = add_rule-new g from to g.productions_count h in
          rw h (
            record {
              entries = Distinct-push g.productions from rule i.entries;
              indices = λ k.
                  let o = occurrences-push k g.productions from rule in
                  let before = i.indices k in ground arith;
              once = λ n p. let a = added n p in let b = i.once n p in ground arith;
            },
            added,
            inr (
              has_production-copies_no to (get_productions_for g.productions from) h,
              (
                refl,
                refl,
                refl,
                keys-push g.productions from rule,
                get-push g.productions from rule,
              ),
            ),
          )
    ]
