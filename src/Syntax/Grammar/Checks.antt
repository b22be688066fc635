-- ===== src/Syntax/Grammar/Checks.antt =====
-- src/syntax/grammar/Grammar.cpp, `check_non_producing` and `check_epsilon_producing`: the least set of
-- nonterminals that is closed under the rules, found round by round.
use recursive_functions.Prelude.{
  ℕ, zero, suc, ◌≡◌, inl, inr, refl, ap, sym, subst, List, [], ◌∷◌, Bool, true, false, not, ◌&&◌,
  ◌||◌, Option, none, some, ◌==◌, if◌then◌else◌, length, contains, insert, merge_into, arith,
  Bool-cases, contains-insert,
}
use recursive_functions.Syntax.Grammar.{
  terminal, nonterminal, Production, is_terminal, is_empty, Rule, Entry, keys,
}
use recursive_functions.Syntax.Grammar.Derivation.{IsAmong, HasRule}

-- The lambda under `all_of`: a terminal is `allowed`, a nonterminal is in the set.
abbrev pub all_known : Bool → List ℕ → Production → Bool
all_known allowed known [] = true
all_known allowed known (terminal t ∷ ps) = allowed && all_known allowed known ps
all_known allowed known (nonterminal n ∷ ps) = contains known n && all_known allowed known ps

abbrev pub any_rule : (Production → Bool) → List Rule → Bool
any_rule test [] = false
any_rule test (r ∷ rs) = test r.production || any_rule test rs

-- A walk over all rules: a nonterminal with a rule that passes the test is to be processed.
abbrev pub scan : (ℕ → Production → Bool) → List Entry → List ℕ
scan test [] = []
scan test (e ∷ es) =
    let rest = scan test es in
    if any_rule (test e.nonterm) e.rules then insert e.nonterm rest else rest

abbrev pub is_new : Bool → List ℕ → ℕ → Production → Bool
is_new allowed known n p = all_known allowed known p && not (contains known n)

-- `while (!to_process.empty())`; `none` is out of fuel.
unfoldable pub closure_loop : Bool → List Entry → ℕ → List ℕ → List ℕ → Option (List ℕ)
closure_loop allowed es fuel known [] = some known
closure_loop allowed es zero known (n ∷ ns) = none
closure_loop allowed es (suc fuel) known (n ∷ ns) =
    let merged = merge_into known (n ∷ ns) in
    closure_loop allowed es fuel merged (scan (is_new allowed merged) es)

abbrev pub first_producing : List Entry → List ℕ
first_producing = scan (λ n p. is_terminal p)

abbrev pub first_epsilon : List Entry → List ℕ
first_epsilon = scan (λ n p. is_empty p)

abbrev pub producing : List Entry → Option (List ℕ)
producing es = closure_loop true es (suc (length es)) [] (first_producing es)

abbrev pub epsilon_producing : List Entry → Option (List ℕ)
epsilon_producing es = closure_loop false es (suc (length es)) [] (first_epsilon es)

-- Whether the check passes, `false` where it throws.
unfoldable pub check_non_producing : List Entry → Option Bool
check_non_producing es = elim (producing es) [
  | none ↦ none
  | some known ↦ some (length known == length es)
]

unfoldable pub check_epsilon_producing : List Entry → Option Bool
check_epsilon_producing es = elim (epsilon_producing es) [
  | none ↦ none
  | some [] ↦ some true
  | some (n ∷ ns) ↦ some false
]

-- The test of the first walk is the test of the later ones with nothing known.
pub first_producing_lem : (p : Production) → is_terminal p ≡ all_known true [] p
first_producing_lem [] = refl
first_producing_lem (terminal t ∷ ps) = first_producing_lem ps
first_producing_lem (nonterminal n ∷ ps) = refl

pub first_epsilon_lem : (p : Production) → is_empty p ≡ all_known false [] p
first_epsilon_lem [] = refl
first_epsilon_lem (terminal t ∷ ps) = refl
first_epsilon_lem (nonterminal n ∷ ps) = refl

any_rule-IsAmong :
    (test : Production → Bool) (rs : List Rule)
    → any_rule test rs ≡ true
    → (p : Production) × IsAmong p rs × (test p ≡ true)
any_rule-IsAmong test [] h = absurd (ground arith)
any_rule-IsAmong test (r ∷ rs) h = elim (Bool-cases (test r.production)) [
  | inl e ↦ (r.production, inl refl, e)
  | inr e ↦ let (p, m, t) = any_rule-IsAmong test rs (ground arith) in (p, inr m, t)
]

IsAmong-any_rule :
    (test : Production → Bool) (rs : List Rule) (p : Production)
    → IsAmong p rs
    → test p ≡ true
    → any_rule test rs ≡ true
IsAmong-any_rule test [] p m t = elim m [ ]
IsAmong-any_rule test (r ∷ rs) p (inl e) t = let s = ap test e in ground arith
IsAmong-any_rule test (r ∷ rs) p (inr m) t = let s = IsAmong-any_rule test rs p m t in ground arith

pub scan_sound :
    (test : ℕ → Production → Bool) (es : List Entry) (n : ℕ)
    → contains (scan test es) n ≡ true
    → (p : Production) × HasRule es n p × (test n p ≡ true)
scan_sound test [] n h = absurd (ground arith)
scan_sound test (e ∷ es) n h = elim (Bool-cases (any_rule (test e.nonterm) e.rules)) [
  | inr k ↦ let (p, m, t) = scan_sound test es n (ground arith) in (p, inr m, t)
  | inl k ↦
      let (p, m, t) = any_rule-IsAmong (test e.nonterm) e.rules k in
      elim ((contains-insert e.nonterm (scan test es) n).0 (ground arith)) [
        | inl same ↦ (p, inl (same, m), subst (λ n. test n p ≡ true) same t)
        | inr rest ↦ let (p, m, t) = scan_sound test es n rest in (p, inr m, t)
      ]
]

pub scan_complete :
    (test : ℕ → Production → Bool) (es : List Entry) (n : ℕ) (p : Production)
    → HasRule es n p
    → test n p ≡ true
    → contains (scan test es) n ≡ true
scan_complete test [] n p m t = elim m [ ]
scan_complete test (e ∷ es) n p (inl (same, m)) t =
    let any =
      IsAmong-any_rule (test e.nonterm) e.rules p m (subst (λ n. test n p ≡ true) (sym same) t) in
    let i = contains-insert e.nonterm (scan test es) n in ground arith
scan_complete test (e ∷ es) n p (inr m) t =
    let r = scan_complete test es n p m t in
    let i = contains-insert e.nonterm (scan test es) n in ground arith

pub HasRule-keys :
    (es : List Entry) (n : ℕ) (p : Production) → HasRule es n p → contains (keys es) n ≡ true
HasRule-keys [] n p m = elim m [ ]
HasRule-keys (e ∷ es) n p (inl (same, m)) = ground arith
HasRule-keys (e ∷ es) n p (inr m) = let r = HasRule-keys es n p m in ground arith

pub length-keys : (es : List Entry) → length (keys es) ≡ length es
length-keys [] = refl
length-keys (e ∷ es) = ap suc (length-keys es)
