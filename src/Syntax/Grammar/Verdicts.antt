-- ===== src/Syntax/Grammar/Verdicts.antt =====
-- src/syntax/grammar/Grammar.cpp, `check`: the two checks one after the other.
use recursive_functions.Prelude.{
  ℕ, ◌≡◌, inl, inr, refl, ap, ◌∙◌, List, [], ◌∷◌, true, false, some, contains, Distinct, arith,
  Bool-cases,
}
use recursive_functions.Syntax.Grammar.{Entry, Grammar, keys, get_productions_for}
use recursive_functions.Syntax.Grammar.Derivation.{Derives, by_rule}
use recursive_functions.Syntax.Grammar.Visits.{Reaches}
use recursive_functions.Syntax.Grammar.Checks.{HasRule-keys}
use recursive_functions.Syntax.Grammar.Closure.{check_non_producing-Derives}
use recursive_functions.Syntax.Grammar.Walks.{
  Verdict, passed, non_producing, unreachable_found, check,
}
use recursive_functions.Syntax.Grammar.Reachability.{check_unreachable-Reaches}

-- Every nonterminal with an entry derives a text.
abbrev pub AllDerive : Grammar → Type 0
AllDerive g = (n : ℕ) → contains (keys g.productions) n ≡ true → Derives true g.productions n

abbrev pub AllReached : Grammar → Type 0
AllReached g = (n : ℕ) → contains (keys g.productions) n ≡ true → Reaches g.productions g.start n

-- What the verdict says of the grammar.
abbrev pub Says : Grammar → Verdict → Type 0
Says g (passed after) =
    AllDerive g
    × AllReached g
    × ((n : ℕ) → Reaches g.productions g.start n → contains (keys after) n ≡ true)
    × ((n : ℕ) → get_productions_for after n ≡ get_productions_for g.productions n)
Says g non_producing = ¬ AllDerive g
Says g unreachable_found = AllDerive g × (¬ AllReached g)

-- On a grammar with one entry for each nonterminal, `check` ends with a verdict, and the verdict is
-- right: it passes where every nonterminal with an entry derives a text and is reached from the start,
-- it says that one derives none where that is so, and else that one is not reached.
pub check-Says :
    (g : Grammar)
    → Distinct (keys g.productions)
    → (verdict : Verdict) × (check g ≡ some verdict) × Says g verdict
unfolding check
check-Says g d =
    let (producing, e, means) = check_non_producing-Derives g.productions d in
    let (reached, after, f, all, entries, rules) = check_unreachable-Reaches g d in
    elim (Bool-cases producing) [
      | inr bad ↦ (non_producing, rw (check, e, bad) refl, λ h. absurd (cc (bad, means.1 h)))
      | inl good ↦ elim (Bool-cases reached) [
        | inl ok ↦ (
          passed after,
          rw (check, e, good, f, ok) refl,
          (means.0 good, all.0 ok, λ n h. (entries n).1 (inl h), rules),
        )
        | inr bad ↦ (
          unreachable_found,
          rw (check, e, good, f, bad) refl,
          (means.0 good, λ h. absurd (cc (bad, all.1 h))),
        )
      ]
    ]

get-missing :
    (es : List Entry) (n : ℕ) → contains (keys es) n ≡ false → get_productions_for es n ≡ []
get-missing [] n h = refl
get-missing (e ∷ es) n h = let r = get-missing es n in ground arith

undefined-Derives : (es : List Entry) (n : ℕ) → contains (keys es) n ≡ false → ¬ Derives true es n
undefined-Derives es n h (by_rule p m d) = let k = HasRule-keys es n p m in absurd (cc)

-- Where all entries derive a text and are reached, no verdict but `passed` is right.
passed_only :
    (g : Grammar) (verdict : Verdict)
    → AllDerive g
    → AllReached g
    → Says g verdict
    → (after : List Entry) × (verdict ≡ passed after) × Says g (passed after)
passed_only g (passed after) derive reached says = (after, refl, says)
passed_only g non_producing derive reached says = absurd (says derive)
passed_only g unreachable_found derive reached says = absurd (says.1 reached)

-- In a grammar with one entry for each nonterminal that has rules, where every nonterminal with an
-- entry derives a text and is reached from the start, let the start reach a nonterminal without an
-- entry. `check` does not report it: it passes, although the nonterminal derives nothing. Afterwards it
-- has an entry, without rules.
pub check_undefined :
    (g : Grammar) (n : ℕ)
    → Distinct (keys g.productions)
    → AllDerive g
    → AllReached g
    → Reaches g.productions g.start n
    → contains (keys g.productions) n ≡ false
    → (after : List Entry) × (check g ≡ some (passed after))
      × (¬ Derives true g.productions n)
      × (contains (keys after) n ≡ true)
      × (get_productions_for after n ≡ [])
check_undefined g n d derive reached r h =
    let (verdict, f, says) = check-Says g d in
    let (after, same, right) = passed_only g verdict derive reached says in
    let (all, each, entries, rules) = right in
    (
      after,
      f ∙ ap some same,
      λ derives. undefined-Derives g.productions n h derives,
      entries n r,
      rules n ∙ get-missing g.productions n h,
    )
