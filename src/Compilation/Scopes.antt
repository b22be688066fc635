-- ===== src/Compilation/Scopes.antt =====
-- src/compilation/{Scope.h,SymbolInfo.h,SymbolInfo.cpp} and name_lookup of semantics/NameLookup.cpp:
-- scopes, the qualified names of symbols, and the search for a name. The scopes of a module are a
-- list, and a `Scope*` is a position in it.
pub mod Qualified
pub mod RoundTrip
use recursive_functions.Prelude.{
  ℕ, zero, suc, List, [], ◌∷◌, ◌++◌, Bool, true, false, Option, none, some, ◌==◌, if◌then◌else◌,
  length, get_elem?,
}
use recursive_functions.Compilation.Types.{StringId, QualifiedId, TypePtr}
use recursive_functions.Compilation.Mangler.{qualifiers_view, last_part}

abbrev pub ScopePtr : Type 0
ScopePtr = ℕ

-- The alternatives of the variant, with the scope that a symbol opens, and its type.
pub data SymbolKind : Type 0 where
  variable : TypePtr → SymbolKind
  namespace : (subscope : ScopePtr) → SymbolKind
  function : TypePtr → (subscope : ScopePtr) → SymbolKind
  class : TypePtr → (subscope : ScopePtr) → SymbolKind
  type_alias : TypePtr → SymbolKind

-- A symbol, with the scope that it is in and the name of its declaration.
pub record SymbolInfo : Type 0 where
  pub scope : ScopePtr
  pub name : StringId
  pub kind : SymbolKind

pub record Scope : Type 0 where
  pub name : StringId
  pub parent : Option ScopePtr
  pub symbols : List (StringId × SymbolInfo)

abbrev pub Scopes : Type 0
Scopes = List Scope

abbrev pub find_symbol : List (StringId × SymbolInfo) → StringId → Option SymbolInfo
find_symbol [] name = none
find_symbol ((key, symbol) ∷ symbols) name =
    if key == name then some symbol else find_symbol symbols name

abbrev pub is_found : Option SymbolInfo → Bool
is_found none = false
is_found (some symbol) = true

abbrev pub has_symbol : Scope → StringId → Bool
has_symbol scope name = is_found (find_symbol scope.symbols name)

-- `missing` is the null pointer, `failed` the exception of `at` and of `std::get`, `fault` a pointer to
-- no scope.
pub data Lookup {ℓ} (A : Type ℓ) : Type ℓ where
  found : A → Lookup A
  missing failed fault out_of_fuel : Lookup A

abbrev pub then_look {ℓ κ} : {A : Type ℓ} {B : Type κ} → Lookup A → (A → Lookup B) → Lookup B
then_look (found a) next = next a
then_look missing next = missing
then_look failed next = failed
then_look fault next = fault
then_look out_of_fuel next = out_of_fuel

abbrev pub in_scope {ℓ} : {B : Type ℓ} → Option Scope → (Scope → Lookup B) → Lookup B
in_scope none next = fault
in_scope (some scope) next = next scope

-- The loop of `get_fully_qualified_name`. The names are pushed to the back and reversed at the end, which
-- puts each before those from inside.
unfoldable pub qualified_loop : Scopes → ℕ → ScopePtr → List StringId → Lookup QualifiedId
qualified_loop scopes zero current result = out_of_fuel
qualified_loop scopes (suc fuel) current result = in_scope (get_elem? scopes current) (λ scope.
    elim scope.parent [
      | none ↦ found result
      | some parent ↦ qualified_loop scopes fuel parent (scope.name ∷ result)
    ])

abbrev pub get_fully_qualified_name : Scopes → SymbolInfo → Lookup QualifiedId
get_fully_qualified_name scopes symbol =
    qualified_loop scopes (length scopes) symbol.scope (symbol.name ∷ [])

-- The `while` of `name_lookup`: the innermost scope that has the name.
unfoldable pub enclosing_loop : Scopes → ℕ → ScopePtr → StringId → Lookup ScopePtr
enclosing_loop scopes zero current name = out_of_fuel
enclosing_loop scopes (suc fuel) current name = in_scope (get_elem? scopes current) (λ scope.
    if has_symbol scope name then found current else elim scope.parent [
      | none ↦ missing
      | some parent ↦ enclosing_loop scopes fuel parent name
    ])

abbrev pub subscope_of : Option SymbolInfo → Lookup ScopePtr
subscope_of none = failed
subscope_of (some symbol) = elim symbol.kind [
  | namespace subscope ↦ found subscope
  | variable t ↦ failed
  | function t s ↦ failed
  | class t s ↦ failed
  | type_alias t ↦ failed
]

-- The loop over the qualifiers.
unfoldable pub follow : Scopes → ScopePtr → List StringId → Lookup ScopePtr
follow scopes current [] = found current
follow scopes current (part ∷ parts) = in_scope (get_elem? scopes current) (λ scope.
    then_look (subscope_of (find_symbol scope.symbols part)) (λ next. follow scopes next parts))

abbrev pub symbol_or_throw : Option SymbolInfo → Lookup SymbolInfo
symbol_or_throw none = failed
symbol_or_throw (some symbol) = found symbol

-- The last line; a name without parts has no front.
unfoldable pub name_lookup : Scopes → ScopePtr → QualifiedId → Lookup SymbolInfo
name_lookup scopes scope [] = fault
name_lookup scopes scope (part ∷ parts) =
    then_look (enclosing_loop scopes (length scopes) scope part) (λ outer.
      then_look (follow scopes outer (qualifiers_view (part ∷ parts))) (λ inner.
        in_scope (get_elem? scopes inner)
          (λ scope. symbol_or_throw (find_symbol scope.symbols (last_part part parts)))))
