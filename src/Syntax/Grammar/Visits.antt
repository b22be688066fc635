-- ===== src/Syntax/Grammar/Visits.antt =====
-- src/syntax/grammar/Grammar.cpp, `check_unreachable`: what one round of the walk leaves.
use recursive_functions.Prelude.{
  ℕ, ◌≡◌, ◌⊎◌, inl, inr, ◌↔◌, refl, sym, subst, List, [], ◌∷◌, ◌++◌, true, false, ◌==◌, ==_iff,
  if◌then◌else◌, contains, Distinct, arith, Bool-cases, contains-append,
}
use recursive_functions.Syntax.Grammar.{
  terminal, nonterminal, Production, Rule, Entry, keys, get_productions_for,
}
use recursive_functions.Syntax.Grammar.Derivation.{Mentions, Uses}
use recursive_functions.Syntax.Grammar.Walks.{
  offer_rules, with_entry, visit, mentioned, mentioned_rules, mentioned_all, offer_rules_iff,
  get-with_entry, keys-append, keys-with_entry,
}

-- The nonterminals that derivations from the start meet.
pub data Reaches (es : List Entry) (start : ℕ) : ℕ → Type 0 where
  here : Reaches es start start
  use_in : {n m : ℕ} → Reaches es start n → Uses (get_productions_for es n) m → Reaches es start m

Distinct-snoc :
    (xs : List ℕ) (n : ℕ) → Distinct xs → contains xs n ≡ false → Distinct (xs ++ n ∷ [])
Distinct-snoc [] n d h = (refl, tt)
Distinct-snoc (x ∷ xs) n (new, d) h =
    let r = Distinct-snoc xs n d in
    let c = contains-append xs (n ∷ []) x in (ground arith, r (ground arith))

Distinct-with_entry :
    (es : List Entry) (n : ℕ) → Distinct (keys es) → Distinct (keys (with_entry es n))
Distinct-with_entry es n d = elim (Bool-cases (contains (keys es) n)) [
  | inl e ↦ rw e d
  | inr e ↦ rw e (
      subst Distinct (sym (keys-append es ((record { nonterm = n; rules = [] }) ∷ [])))
        (Distinct-snoc (keys es) n d e))
]

-- What a visit of some nonterminals leaves: the same rules, an entry for each of them, and the
-- nonterminals that they use and that are not reached yet.
pub record IsVisited (reachable ns : List ℕ) (es : List Entry) (next : List ℕ)
    (after : List Entry × List ℕ) : Type 0 where
  pub rules : (m : ℕ) → get_productions_for after.0 m ≡ get_productions_for es m
  pub entries :
      (m : ℕ)
      → (contains (keys after.0) m ≡ true)
        ↔ ((contains ns m ≡ true) ⊎ (contains (keys es) m ≡ true))
  pub distinct : Distinct (keys es) → Distinct (keys after.0)
  pub found :
      (y : ℕ)
      → contains after.1 y ≡ true
      → (contains next y ≡ true)
        ⊎ ((x : ℕ) × (contains ns x ≡ true)
            × Uses (get_productions_for es x) y
            × (contains reachable y ≡ false))
  pub kept : (y : ℕ) → contains next y ≡ true → contains after.1 y ≡ true
  pub offered :
      (x y : ℕ)
      → contains ns x ≡ true
      → Uses (get_productions_for es x) y
      → contains reachable y ≡ false
      → contains after.1 y ≡ true

pub visit-IsVisited :
    (reachable ns : List ℕ) (es : List Entry) (next : List ℕ)
    → IsVisited reachable ns es next (visit reachable ns es next)
visit-IsVisited reachable [] es next = record {
  rules = λ m. refl;
  entries = λ m. ground arith;
  distinct = λ d. d;
  found = λ y h. inl h;
  kept = λ y h. h;
  offered = λ x y h. absurd (ground arith);
}
visit-IsVisited reachable (n ∷ ns) es next =
    let es' = with_entry es n in
    let next' = offer_rules reachable next (get_productions_for es' n) in
    let r = visit-IsVisited reachable ns es' next' in
    let offer = offer_rules_iff reachable next (get_productions_for es' n) in
    let same = get-with_entry es n in
    record {
      rules = λ m. rw (r.rules m, same m) refl;
      entries = λ m. let a = r.entries m in let b = keys-with_entry es n m in ground arith;
      distinct = λ d. r.distinct (Distinct-with_entry es n d);
      found = λ y h. elim (r.found y h) [
        | inl a ↦ elim ((offer y).0 a) [
          | inl b ↦ inl b
          | inr (u, new) ↦ inr (n, ground arith, subst (λ rs. Uses rs y) (same n) u, new)
        ]
        | inr (x, m, u, new) ↦ inr (x, ground arith, subst (λ rs. Uses rs y) (same x) u, new)
      ];
      kept = λ y h. r.kept y ((offer y).1 (inl h));
      offered = λ x y m u new. elim (Bool-cases (n == x)) [
        | inl e ↦
            let eq = (==_iff n x).0 e in
            r.kept y (
              (offer y).1 (
                inr (
                  subst (λ rs. Uses rs y) (sym (same n))
                      (subst (λ x. Uses (get_productions_for es x) y) (sym eq) u),
                  new,
                )))
        | inr e ↦ r.offered x y (ground arith) (subst (λ rs. Uses rs y) (sym (same x)) u) new
      ];
    }

Mentions-contains : (p : Production) (n : ℕ) → Mentions p n → contains (mentioned p) n ≡ true
Mentions-contains [] n m = elim m [ ]
Mentions-contains (terminal t ∷ ps) n m = Mentions-contains ps n m
Mentions-contains (nonterminal k ∷ ps) n (inl e) = ground arith
Mentions-contains (nonterminal k ∷ ps) n (inr m) = let r = Mentions-contains ps n m in ground arith

Uses-contains : (rs : List Rule) (n : ℕ) → Uses rs n → contains (mentioned_rules rs) n ≡ true
Uses-contains [] n u = elim u [ ]
Uses-contains (r ∷ rs) n (inl m) =
    let c = contains-append (mentioned r.production) (mentioned_rules rs) n in
    let k = Mentions-contains r.production n m in ground arith
Uses-contains (r ∷ rs) n (inr u) =
    let c = contains-append (mentioned r.production) (mentioned_rules rs) n in
    let k = Uses-contains rs n u in ground arith

pub get-contains :
    (es : List Entry) (x n : ℕ)
    → Uses (get_productions_for es x) n
    → contains (mentioned_all es) n ≡ true
get-contains [] x n u = elim u [ ]
get-contains (e ∷ es) x n u =
    let c = contains-append (mentioned_rules e.rules) (mentioned_all es) n in
    elim (Bool-cases (e.nonterm == x)) [
      | inl k ↦
          let r =
            Uses-contains e.rules n
              (subst (λ b. Uses (if b then e.rules else get_productions_for es x) n) k u) in
          ground arith
      | inr k ↦
          let r =
            get-contains es x n
              (subst (λ b. Uses (if b then e.rules else get_productions_for es x) n) k u) in
          ground arith
    ]
