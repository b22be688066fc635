-- ===== src/Tests/Serializers.antt =====
-- Tables that are written and read back.
use recursive_functions.Prelude.{
  ℕ, zero, suc, ◌≡◌, refl, List, [], ◌∷◌, ◌++◌, some, arith, length, All, replicate,
}
use recursive_functions.Lexis.Token.{identifier, all_tokens}
use recursive_functions.Lexis.Jump.{next_state, finish, Table}
use recursive_functions.Lexis.TableSerializer.{
  serialize, deserialize, JumpFits64, deserialize-serialize,
}
use recursive_functions.Syntax.Parser.{Action, accept, reduce, Tables}
use recursive_functions.Syntax.TableSerializer
use recursive_functions.Syntax.TableSerializer.{
  AreTables, ActionFits64, deserialize-serialize_tables,
}

-- A state that finishes on the first symbol, and goes back to itself on the others.
abbrev one_state : Table
one_state = (finish 1 identifier ∷ replicate 127 (next_state 0)) ∷ []

All-replicate_jumps : (n : ℕ) → All JumpFits64 (replicate n (next_state 0))
All-replicate_jumps zero = tt
All-replicate_jumps (suc n) = (omega arith, All-replicate_jumps n)

deserialize-serialize_example :
    deserialize (serialize one_state ++ 7 ∷ []) ≡ some (one_state, 7 ∷ [])
deserialize-serialize_example =
    deserialize-serialize one_state (7 ∷ []) ((refl, (omega arith, All-replicate_jumps 127)), tt)
      (omega arith)

abbrev other_actions : ℕ
other_actions = length all_tokens

-- A state that accepts whatever comes, with one nonterminal.
abbrev small_tables : Tables
small_tables = record {
  actions = replicate other_actions accept ∷ replicate other_actions (reduce 0 1 2) ∷ [];
  goto = (1 ∷ []) ∷ (0 ∷ []) ∷ [];
}

All-replicate_actions : (n : ℕ) (a : Action) → ActionFits64 a → All ActionFits64 (replicate n a)
All-replicate_actions zero a h = tt
All-replicate_actions (suc n) a h = (h, All-replicate_actions n a h)

small_tables-AreTables : AreTables small_tables 1
small_tables-AreTables = record {
  actions = (
    (refl, All-replicate_actions other_actions accept tt),
    (
      (
        refl,
        All-replicate_actions other_actions (reduce 0 1 2) (omega arith, omega arith, omega arith),
      ),
      tt,
    ),
  );
  gotos = ((refl, (omega arith, tt)), ((refl, (omega arith, tt)), tt));
  states = refl;
  nonempty = omega arith;
  states_fit = omega arith;
  nonterms_fit = omega arith;
}

deserialize-serialize_tables_example :
    (stream : List ℕ) × (TableSerializer.serialize small_tables ≡ some stream)
    × (TableSerializer.deserialize (stream ++ []) ≡ some (small_tables, []))
deserialize-serialize_tables_example =
    deserialize-serialize_tables small_tables 1 [] small_tables-AreTables
