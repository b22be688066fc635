-- ===== src/Tests/Scopes.antt =====
-- A namespace in the root, with a function in it.
use recursive_functions.Prelude.{◌≡◌, refl, [], ◌∷◌, ◌++◌, none, some, arith}
use recursive_functions.Compilation.Scopes.{
  SymbolInfo, SymbolKind, Scope, Scopes, found, get_fully_qualified_name, name_lookup,
  enclosing_loop, follow,
}
use recursive_functions.Compilation.Scopes.Qualified.{InNamespace, at_root, inside}
use recursive_functions.Compilation.Scopes.RoundTrip.{name_lookup-get_fully_qualified_name}

abbrev space : SymbolInfo
space = record { scope = 0; name = 5; kind = SymbolKind.namespace 1 }

abbrev run : SymbolInfo
run = record { scope = 1; name = 6; kind = SymbolKind.function 0 2 }

abbrev root : Scope
root = record { name = 0; parent = none; symbols = (5, space) ∷ [] }

abbrev nested : Scope
nested = record { name = 5; parent = some 0; symbols = (6, run) ∷ [] }

abbrev body : Scope
body = record { name = 6; parent = some 1; symbols = [] }

abbrev scopes : Scopes
scopes = root ∷ nested ∷ body ∷ []

nested-InNamespace : InNamespace scopes 0 1 (5 ∷ [])
nested-InNamespace =
    inside root nested space (at_root root refl refl) (omega arith) refl refl refl refl refl

name_lookup-get_fully_qualified_name_example :
    (get_fully_qualified_name scopes run ≡ found ((5 ∷ []) ++ 6 ∷ []))
    × (name_lookup scopes 0 ((5 ∷ []) ++ 6 ∷ []) ≡ found run)
name_lookup-get_fully_qualified_name_example =
    name_lookup-get_fully_qualified_name scopes 0 (5 ∷ []) nested run nested-InNamespace refl refl

-- From the body of the function the innermost scope with the name is searched for outwards.
name_lookup-body : name_lookup scopes 2 (6 ∷ []) ≡ found run
unfolding name_lookup enclosing_loop follow
name_lookup-body = refl
