-- ===== src/Compilation/Scopes/Qualified.antt =====
-- src/compilation/SymbolInfo.cpp and name_lookup of src/compilation/semantics/NameLookup.cpp: the
-- qualified name of a symbol leads back to the symbol.
use recursive_functions.Prelude.{
  ℕ, zero, suc, ◌<◌, ◌≤◌, ◌≡◌, refl, ap, sym, ◌∙◌, List, [], ◌∷◌, ◌++◌, Option, none, some, length,
  length-snoc, get_elem?, get_elem?-lt, arith,
}
use mathlib.Core.List.{append_assoc}
use recursive_functions.Compilation.Types.{StringId}
use recursive_functions.Compilation.Scopes.{
  ScopePtr, namespace, SymbolInfo, Scope, Scopes, find_symbol, Lookup, found, missing, failed,
  fault, out_of_fuel, then_look, in_scope, qualified_loop, subscope_of, follow,
}

-- The scopes that namespaces open, with their names from the root on: each is a symbol of its parent,
-- which was made before it.
pub data InNamespace (scopes : Scopes) (root : ScopePtr) : ScopePtr → List StringId → Type 0 where
  at_root :
      (scope : Scope)
      → get_elem? scopes root ≡ some scope
      → scope.parent ≡ none
      → InNamespace scopes root root []
  inside :
      {p q : ScopePtr} {parts : List StringId} (outer scope : Scope) (symbol : SymbolInfo)
      → InNamespace scopes root p parts
      → p < q
      → get_elem? scopes p ≡ some outer
      → get_elem? scopes q ≡ some scope
      → scope.parent ≡ some p
      → find_symbol outer.symbols scope.name ≡ some symbol
      → symbol.kind ≡ namespace q
      → InNamespace scopes root q (parts ++ scope.name ∷ [])

then_look_assoc {ℓ κ μ} :
    {A : Type ℓ} {B : Type κ} {C : Type μ} (m : Lookup A) (f g : A → Lookup C) (h : A → Lookup B)
    (k : B → Lookup C)
    → ((a : A) → f a ≡ then_look (h a) k)
    → then_look m f ≡ then_look (then_look m h) k
then_look_assoc (found a) f g h k e = e a
then_look_assoc missing f g h k e = refl
then_look_assoc failed f g h k e = refl
then_look_assoc fault f g h k e = refl
then_look_assoc out_of_fuel f g h k e = refl

in_scope_assoc {ℓ κ} :
    {B : Type ℓ} {C : Type κ} (o : Option Scope) (f : Scope → Lookup C) (h : Scope → Lookup B)
    (k : B → Lookup C)
    → ((s : Scope) → f s ≡ then_look (h s) k)
    → in_scope o f ≡ then_look (in_scope o h) k
in_scope_assoc none f h k e = refl
in_scope_assoc (some s) f h k e = e s

follow-append :
    (scopes : Scopes) (p : ScopePtr) (xs ys : List StringId)
    → follow scopes p (xs ++ ys) ≡ then_look (follow scopes p xs) (λ q. follow scopes q ys)
unfolding follow
follow-append scopes p [] ys = refl
follow-append scopes p (x ∷ xs) ys =
    in_scope_assoc (get_elem? scopes p)
      (λ scope.
        then_look (subscope_of (find_symbol scope.symbols x))
          (λ next. follow scopes next (xs ++ ys)))
      (λ scope.
        then_look (subscope_of (find_symbol scope.symbols x)) (λ next. follow scopes next xs))
      (λ q. follow scopes q ys)
      (λ scope.
        then_look_assoc (subscope_of (find_symbol scope.symbols x))
          (λ next. follow scopes next (xs ++ ys)) (λ next. follow scopes next (xs ++ ys))
          (λ next. follow scopes next xs) (λ q. follow scopes q ys)
          (λ next. follow-append scopes next xs ys))

subscope_of_namespace :
    (symbol : SymbolInfo) (q : ScopePtr)
    → symbol.kind ≡ namespace q
    → subscope_of (some symbol) ≡ found q
subscope_of_namespace symbol q e = rw e refl

follow_one :
    (scopes : Scopes) (p q : ScopePtr) (outer : Scope) (name : StringId) (symbol : SymbolInfo)
    → get_elem? scopes p ≡ some outer
    → find_symbol outer.symbols name ≡ some symbol
    → symbol.kind ≡ namespace q
    → follow scopes p (name ∷ []) ≡ found q
unfolding follow
follow_one scopes p q outer name symbol at here kind =
    ap (λ o. in_scope o (λ scope. then_look (subscope_of (find_symbol scope.symbols name)) found))
      at
    ∙ ap (λ o. then_look (subscope_of o) found) here
    ∙ ap (λ l. then_look l found) (subscope_of_namespace symbol q kind)

pub follow-InNamespace :
    (scopes : Scopes) (root : ScopePtr) {p : ScopePtr} {parts : List StringId}
    → InNamespace scopes root p parts
    → follow scopes root parts ≡ found p
unfolding follow
follow-InNamespace scopes root (at_root scope at top) = refl
follow-InNamespace scopes root
      (inside {p = p} {q = q} {parts = parts} outer scope symbol n older at there up here kind) =
    follow-append scopes root parts (scope.name ∷ [])
    ∙ ap (λ l. then_look l (λ q. follow scopes q (scope.name ∷ [])))
        (follow-InNamespace scopes root n)
    ∙ follow_one scopes p q outer scope.name symbol at here kind

pub depth-le :
    (scopes : Scopes) (root : ScopePtr) {p : ScopePtr} {parts : List StringId}
    → InNamespace scopes root p parts
    → (length parts ≤ p) × (p < length scopes)
depth-le scopes root (at_root scope at top) = (omega arith, get_elem?-lt scopes root at)
depth-le scopes root
      (inside {q = q} {parts = parts} outer scope symbol n older at there up here kind) =
    let (depth, _) = depth-le scopes root n in
    (omega (arith, length-snoc parts scope.name, depth), get_elem?-lt scopes q there)

qualified_step :
    (scopes : Scopes) (fuel : ℕ) (q p : ScopePtr) (scope : Scope) (result : List StringId)
    → get_elem? scopes q ≡ some scope
    → scope.parent ≡ some p
    → qualified_loop scopes (suc fuel) q result ≡ qualified_loop scopes fuel p (scope.name ∷ result)
unfolding qualified_loop
qualified_step scopes fuel q p scope result at up = rw (qualified_loop, at) (rw up refl)

pub qualified_loop-InNamespace :
    (scopes : Scopes) (root : ScopePtr) (fuel : ℕ) {p : ScopePtr} {parts : List StringId}
    (result : List StringId)
    → InNamespace scopes root p parts
    → length parts < fuel
    → qualified_loop scopes fuel p result ≡ found (parts ++ result)
unfolding qualified_loop
qualified_loop-InNamespace scopes root zero result n h = absurd (omega arith)
qualified_loop-InNamespace scopes root (suc fuel) result (at_root scope at top) h =
    rw (qualified_loop, at) (rw top refl)
qualified_loop-InNamespace scopes root (suc fuel) result
      (inside {p = p} {q = q} {parts = parts} outer scope symbol n older at there up here kind) h =
    qualified_step scopes fuel q p scope result there up
    ∙ qualified_loop-InNamespace scopes root fuel (scope.name ∷ result) n
        (omega (arith, length-snoc parts scope.name))
    ∙ ap found (sym (append_assoc parts (scope.name ∷ []) result))
