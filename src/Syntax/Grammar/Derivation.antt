-- ===== src/Syntax/Grammar/Derivation.antt =====
-- src/syntax/grammar/Grammar.cpp: what a grammar derives and what its start reaches, independently of
-- the loops that compute it.
use recursive_functions.Prelude.{ℕ, ◌≡◌, ◌⊎◌, List, [], ◌∷◌, Bool, true}
use recursive_functions.Lexis.Token.{TokenType}
use recursive_functions.Syntax.Grammar.{terminal, nonterminal, Production, Rule, Entry}

-- A production is one of the rules.
abbrev pub IsAmong : Production → List Rule → Type 0
IsAmong p [] = ⊥
IsAmong p (r ∷ rs) = (r.production ≡ p) ⊎ IsAmong p rs

-- A nonterminal has a production.
abbrev pub HasRule : List Entry → ℕ → Production → Type 0
HasRule [] n p = ⊥
HasRule (e ∷ es) n p = ((e.nonterm ≡ n) × IsAmong p e.rules) ⊎ HasRule es n p

-- A nonterminal derives a finite text; where terminals are not allowed, that is the empty text.
mutual
  pub data Derives (allowed : Bool) (es : List Entry) : ℕ → Type 0 where
    by_rule :
        {n : ℕ} (p : Production) → HasRule es n p → DerivesAll allowed es p → Derives allowed es n

  pub data DerivesAll (allowed : Bool) (es : List Entry) : Production → Type 0 where
    no_part : DerivesAll allowed es []
    token_part :
        {ps : Production} (t : TokenType)
        → allowed ≡ true
        → DerivesAll allowed es ps
        → DerivesAll allowed es (terminal t ∷ ps)
    nonterm_part :
        {ps : Production} (n : ℕ)
        → Derives allowed es n
        → DerivesAll allowed es ps
        → DerivesAll allowed es (nonterminal n ∷ ps)

-- A nonterminal stands in a production.
abbrev pub Mentions : Production → ℕ → Type 0
Mentions [] n = ⊥
Mentions (terminal t ∷ ps) n = Mentions ps n
Mentions (nonterminal m ∷ ps) n = (m ≡ n) ⊎ Mentions ps n

-- One nonterminal is used by a rule of another.
abbrev pub Uses : List Rule → ℕ → Type 0
Uses [] n = ⊥
Uses (r ∷ rs) n = Mentions r.production n ⊎ Uses rs n
