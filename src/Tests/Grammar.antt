-- ===== src/Tests/Grammar.antt =====
-- A grammar of nested parentheses, and one that uses a nonterminal without rules.
use recursive_functions.Prelude.{
  ◌≡◌, inl, inr, refl, subst, List, [], ◌∷◌, true, some, arith, contains,
}
use recursive_functions.Lexis.Token.{token_index, identifier, open_paren, close_paren}
use recursive_functions.Syntax.Grammar.{
  terminal, nonterminal, Production, Entry, Grammar, add_rule, keys, get_productions_for,
}
use recursive_functions.Syntax.Grammar.Numbering.{IsNumbered, Added, HasAdded, add_rule-IsNumbered}
use recursive_functions.Syntax.Grammar.Derivation.{Derives, by_rule, token_part, no_part}
use recursive_functions.Syntax.Grammar.Visits.{Reaches, here, use_in}
use recursive_functions.Syntax.Grammar.Checks.{closure_loop, check_non_producing}
use recursive_functions.Syntax.Grammar.Walks.{walk_loop, check_unreachable, check, Verdict, passed}
use recursive_functions.Syntax.Grammar.Verdicts.{
  AllDerive, AllReached, Says, check-Says, check_undefined,
}
use recursive_functions.Syntax.Grammar.Reduction.{generate_reduced_productions}

abbrev name : Production
name = terminal identifier ∷ []

abbrev parens : Production
parens = terminal open_paren ∷ nonterminal 0 ∷ terminal close_paren ∷ []

abbrev blank : Grammar
blank = record { nonterminals_count = 1; productions_count = 0; productions = []; start = 0 }

blank-IsNumbered : IsNumbered blank
blank-IsNumbered = record { entries = tt; indices = λ i. ground arith; once = λ n p. omega arith }

abbrev one_rule : Grammar
one_rule = add_rule blank 0 name

add_rule-IsNumbered_example :
    IsNumbered (add_rule one_rule 0 parens)
    × Added one_rule 0 parens (add_rule one_rule 0 parens)
    × HasAdded one_rule 0 parens (add_rule one_rule 0 parens)
add_rule-IsNumbered_example =
    add_rule-IsNumbered one_rule 0 parens (add_rule-IsNumbered blank 0 name blank-IsNumbered).0

abbrev nested : Grammar
nested = record {
  nonterminals_count = 1;
  productions_count = 2;
  productions =
      record {
        nonterm = 0;
        rules =
            record { production = name; index = 0 }
            ∷ record { production = parens; index = 1 }
            ∷ [];
      }
      ∷ [];
  start = 0;
}

two_rules : add_rule one_rule 0 parens ≡ nested
unfolding add_rule token_index
two_rules = refl

the_same_rule : add_rule nested 0 parens ≡ nested
unfolding add_rule token_index
the_same_rule = refl

check-nested : check nested ≡ some (passed nested.productions)
unfolding check check_non_producing closure_loop check_unreachable walk_loop
check-nested = refl

check-Says_example : (verdict : Verdict) × (check nested ≡ some verdict) × Says nested verdict
check-Says_example = check-Says nested (refl, tt)

-- The second nonterminal has no rules.
abbrev dangling : Grammar
dangling = record {
  nonterminals_count = 2;
  productions_count = 2;
  productions =
      record {
        nonterm = 0;
        rules =
            record { production = name; index = 0 }
            ∷ record { production = nonterminal 1 ∷ []; index = 1 }
            ∷ [];
      }
      ∷ [];
  start = 0;
}

abbrev dangling_after : List Entry
dangling_after =
    record {
      nonterm = 0;
      rules =
          record { production = name; index = 0 }
          ∷ record { production = nonterminal 1 ∷ []; index = 1 }
          ∷ [];
    }
    ∷ record { nonterm = 1; rules = [] }
    ∷ []

check-dangling : check dangling ≡ some (passed dangling_after)
unfolding check check_non_producing closure_loop check_unreachable walk_loop
check-dangling = refl

dangling-AllDerive : AllDerive dangling
dangling-AllDerive n h =
    let first : 0 ≡ n = ground arith in
    subst (Derives true dangling.productions) first
      (by_rule name (inl (refl, inl refl)) (token_part identifier refl no_part))

dangling-AllReached : AllReached dangling
dangling-AllReached n h =
    let first : 0 ≡ n = ground arith in subst (Reaches dangling.productions 0) first here

check_undefined_example :
    (after : List Entry) × (check dangling ≡ some (passed after))
    × (¬ Derives true dangling.productions 1)
    × (contains (keys after) 1 ≡ true)
    × (get_productions_for after 1 ≡ [])
check_undefined_example =
    check_undefined dangling 1 (refl, tt) dangling-AllDerive dangling-AllReached
      (use_in here (inr (inl (inl refl)))) refl

abbrev around : Production
around = nonterminal 1 ∷ terminal identifier ∷ nonterminal 1 ∷ []

four_productions :
    generate_reduced_productions around (1 ∷ [])
    ≡ around
      ∷ (terminal identifier ∷ nonterminal 1 ∷ [])
      ∷ (nonterminal 1 ∷ terminal identifier ∷ [])
      ∷ name
      ∷ []
unfolding generate_reduced_productions
four_productions = refl
