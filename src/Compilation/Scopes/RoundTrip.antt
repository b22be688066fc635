-- ===== src/Compilation/Scopes/RoundTrip.antt =====
-- src/compilation/SymbolInfo.cpp and name_lookup of src/compilation/semantics/NameLookup.cpp: the
-- search from the root for the qualified name of a symbol.
use recursive_functions.Prelude.{
  ℕ, zero, suc, ◌<◌, ◌≡◌, refl, ap, sym, subst, ◌∙◌, inl, inr, List, [], ◌∷◌, ◌++◌, true, Option,
  some, length, get_elem?, get_elem?-lt, arith, Option-cases,
}
use recursive_functions.Compilation.Types.{StringId}
use recursive_functions.Compilation.Mangler.{qualifiers_view, last_part}
use recursive_functions.Compilation.Scopes.{
  ScopePtr, SymbolInfo, Scope, Scopes, find_symbol, is_found, has_symbol, found, failed, then_look,
  in_scope, get_fully_qualified_name, enclosing_loop, subscope_of, follow, symbol_or_throw,
  name_lookup,
}
use recursive_functions.Compilation.Scopes.Qualified.{
  InNamespace, at_root, inside, follow-InNamespace, depth-le, qualified_loop-InNamespace,
}

qualifiers_view-snoc :
    (part : StringId) (parts : List StringId) (name : StringId)
    → qualifiers_view (part ∷ (parts ++ name ∷ [])) ≡ part ∷ parts
qualifiers_view-snoc part [] name = refl
qualifiers_view-snoc part (next ∷ parts) name =
    ap (λ ps. part ∷ ps) (qualifiers_view-snoc next parts name)

last_part-snoc :
    (part : StringId) (parts : List StringId) (name : StringId)
    → last_part part (parts ++ name ∷ []) ≡ name
last_part-snoc part [] name = refl
last_part-snoc part (next ∷ parts) name = last_part-snoc next parts name

enclosing_here :
    (scopes : Scopes) (fuel : ℕ) (root : ScopePtr) (scope : Scope) (name : StringId)
    → 0 < fuel
    → get_elem? scopes root ≡ some scope
    → has_symbol scope name ≡ true
    → enclosing_loop scopes fuel root name ≡ found root
unfolding enclosing_loop
enclosing_here scopes zero root scope name h at has = absurd (omega arith)
enclosing_here scopes (suc fuel) root scope name h at has = rw (enclosing_loop, at) (rw has refl)

has_first :
    (scopes : Scopes) (root p : ScopePtr) (scope : Scope) (part : StringId) (parts : List StringId)
    → get_elem? scopes root ≡ some scope
    → follow scopes root (part ∷ parts) ≡ found p
    → has_symbol scope part ≡ true
unfolding follow
has_first scopes root p scope part parts at e =
    let step =
      λ (o : Option SymbolInfo). then_look (subscope_of o) (λ next. follow scopes next parts) in
    let here : step (find_symbol scope.symbols part) ≡ found p =
      sym (ap (λ o. in_scope o (λ scope. step (find_symbol scope.symbols part))) at) ∙ e in
    elim (Option-cases (find_symbol scope.symbols part)) [
      | inl none_here ↦ let bad : failed ≡ found p = sym (ap step none_here) ∙ here in absurd (cc)
      | inr (symbol, s) ↦ ap is_found s
    ]

-- The search from a scope that has the first part, when the qualifiers lead to a scope that has the
-- name.
name_lookup_here :
    (scopes : Scopes) (root p : ScopePtr) (top scope : Scope) (part : StringId)
    (parts : List StringId) (symbol : SymbolInfo)
    → get_elem? scopes root ≡ some top
    → has_symbol top part ≡ true
    → follow scopes root (qualifiers_view (part ∷ parts)) ≡ found p
    → get_elem? scopes p ≡ some scope
    → find_symbol scope.symbols (last_part part parts) ≡ some symbol
    → name_lookup scopes root (part ∷ parts) ≡ found symbol
unfolding name_lookup
name_lookup_here scopes root p top scope part parts symbol at has leads there here =
    let last = λ (o : Option Scope).
      in_scope o (λ scope. symbol_or_throw (find_symbol scope.symbols (last_part part parts))) in
    let walk = λ (outer : ScopePtr).
      then_look (follow scopes outer (qualifiers_view (part ∷ parts)))
        (λ inner. last (get_elem? scopes inner)) in
    ap (λ l. then_look l walk)
      (enclosing_here scopes (length scopes) root top part
        (omega (arith, get_elem?-lt scopes root at)) at has)
    ∙ ap (λ l. then_look l (λ inner. last (get_elem? scopes inner))) leads
    ∙ ap last there
    ∙ ap symbol_or_throw here

root_scope :
    (scopes : Scopes) (root : ScopePtr) {p : ScopePtr} {parts : List StringId}
    → InNamespace scopes root p parts
    → (top : Scope) × (get_elem? scopes root ≡ some top)
root_scope scopes root (at_root scope at top) = (scope, at)
root_scope scopes root (inside outer scope symbol n older at there up here kind) =
    root_scope scopes root n

name_lookup-snoc :
    (scopes : Scopes) (root p : ScopePtr) (parts : List StringId) (top scope : Scope)
    (name : StringId) (symbol : SymbolInfo)
    → get_elem? scopes root ≡ some top
    → follow scopes root parts ≡ found p
    → get_elem? scopes p ≡ some scope
    → find_symbol scope.symbols name ≡ some symbol
    → name_lookup scopes root (parts ++ name ∷ []) ≡ found symbol
unfolding follow
name_lookup-snoc scopes root p [] top scope name symbol at leads there here =
    let same : root ≡ p = cc in
    let also : top ≡ scope = cc in
    name_lookup_here scopes root p top scope name [] symbol at
      (ap is_found (subst (λ s. find_symbol s.symbols name ≡ some symbol) (sym also) here)) leads
      there here
name_lookup-snoc scopes root p (part ∷ parts) top scope name symbol at leads there here =
    name_lookup_here scopes root p top scope part (parts ++ name ∷ []) symbol at
      (has_first scopes root p top part parts at leads)
      (ap (follow scopes root) (qualifiers_view-snoc part parts name) ∙ leads) there
      (ap (find_symbol scope.symbols) (last_part-snoc part parts name) ∙ here)

-- A symbol of a scope that namespaces lead to from the root, where it is found by its name, has a
-- qualified name, which is their names
-- and its own, and the search for that name from the root finds the symbol.
pub name_lookup-get_fully_qualified_name :
    (scopes : Scopes) (root : ScopePtr) (parts : List StringId) (scope : Scope)
    (symbol : SymbolInfo)
    → InNamespace scopes root symbol.scope parts
    → get_elem? scopes symbol.scope ≡ some scope
    → find_symbol scope.symbols symbol.name ≡ some symbol
    → (get_fully_qualified_name scopes symbol ≡ found (parts ++ symbol.name ∷ []))
      × (name_lookup scopes root (parts ++ symbol.name ∷ []) ≡ found symbol)
name_lookup-get_fully_qualified_name scopes root parts scope symbol n there here =
    let (depth, inside_scopes) = depth-le scopes root n in
    let (top, at) = root_scope scopes root n in
    (
      qualified_loop-InNamespace scopes root (length scopes) (symbol.name ∷ []) n (omega arith),
      name_lookup-snoc scopes root symbol.scope parts top scope symbol.name symbol at
          (follow-InNamespace scopes root n) there here,
    )
