-- ===== src/Syntax/Grammar.antt =====
-- src/syntax/grammar/{Grammar.h,Grammar.cpp,GrammarProduction.h}: productions, the rules of a grammar
-- and its numbering. The map of the rules is a list of entries with different keys; the order of the
-- entries is the one in which the map is walked.
pub mod Numbering
pub mod Derivation
pub mod Checks
pub mod Closure
pub mod Walks
pub mod Visits
pub mod Reachability
pub mod Verdicts
pub mod Reduction
use recursive_functions.Prelude.{
  ℕ, zero, suc, ◌+◌, ◌≡◌, List, [], ◌∷◌, ◌++◌, Bool, true, false, not, ◌&&◌, Option, none, some,
  ◌==◌, if◌then◌else◌, length, contains, insert, merge_into,
}
use recursive_functions.Lexis.Token.{TokenType, token_index}

pub data Part : Type 0 where
  terminal : TokenType → Part
  nonterminal : ℕ → Part

abbrev pub Production : Type 0
Production = List Part

pub data ℤ : Type 0 where
  pos : ℕ → ℤ
  negsuc : ℕ → ℤ

-- The number of a token, or `-(id + 2)`.
abbrev pub as_number : Part → ℤ
as_number (terminal token) = pos (token_index token)
as_number (nonterminal id) = negsuc (id + 1)

abbrev pub number_eq : ℤ → ℤ → Bool
number_eq (pos n) (pos m) = n == m
number_eq (negsuc n) (negsuc m) = n == m
number_eq (pos n) (negsuc m) = false
number_eq (negsuc n) (pos m) = false

-- `GrammarProductionResult::operator==`
abbrev pub production_eq : Production → Production → Bool
production_eq [] [] = true
production_eq [] (q ∷ qs) = false
production_eq (p ∷ ps) [] = false
production_eq (p ∷ ps) (q ∷ qs) = number_eq (as_number p) (as_number q) && production_eq ps qs

abbrev pub is_terminal : Production → Bool
is_terminal [] = true
is_terminal (terminal t ∷ ps) = is_terminal ps
is_terminal (nonterminal n ∷ ps) = false

abbrev pub is_empty : Production → Bool
is_empty [] = true
is_empty (p ∷ ps) = false

abbrev pub add_part : Part → Production → Production
add_part part production = production ++ part ∷ []

pub record Rule : Type 0 where
  pub production : Production
  pub index : ℕ

pub record Entry : Type 0 where
  pub nonterm : ℕ
  pub rules : List Rule

pub record Grammar : Type 0 where
  pub nonterminals_count : ℕ
  pub productions_count : ℕ
  pub productions : List Entry
  pub start : ℕ

-- The grammar after the call, and the new nonterminal.
abbrev pub register_nonterm : Grammar → ℕ × Grammar
register_nonterm g =
    (g.nonterminals_count, record g { nonterminals_count = g.nonterminals_count + 1 })

-- A key that is missing has no rules.
abbrev pub get_productions_for : List Entry → ℕ → List Rule
get_productions_for [] n = []
get_productions_for (e ∷ es) n = if e.nonterm == n then e.rules else get_productions_for es n

-- The search for an equal production in `add_rule`.
abbrev pub has_production : Production → List Rule → Bool
has_production to [] = false
has_production to (r ∷ rs) = if production_eq r.production to then true else has_production to rs

-- `productions_[from].emplace_back(…)`
abbrev pub push_rule : List Entry → ℕ → Rule → List Entry
push_rule [] from rule = record { nonterm = from; rules = rule ∷ [] } ∷ []
push_rule (e ∷ es) from rule =
    if e.nonterm == from
    then record e { rules = e.rules ++ rule ∷ [] } ∷ es
    else e ∷ push_rule es from rule

unfoldable pub add_rule : Grammar → ℕ → Production → Grammar
add_rule g from to =
    if has_production to (get_productions_for g.productions from) then g else record g {
      productions =
          push_rule g.productions from (record { production = to; index = g.productions_count });
      productions_count = g.productions_count + 1;
    }

abbrev pub keys : List Entry → List ℕ
keys [] = []
keys (e ∷ es) = e.nonterm ∷ keys es
