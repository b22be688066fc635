-- ===== src/Syntax/TableSerializer.antt =====
-- src/syntax/lr/LRTableSerializer.cpp: the tables of the parser as bytes. A stream that is too short is
-- `none`, and so is `front` of a goto table without rows.
use recursive_functions.Prelude.{
  ℕ, ◌<◌, ◌≡◌, ap, sym, ◌∙◌, List, [], ◌∷◌, ◌++◌, Option, none, some, arith, ◌==◌, if◌then◌else◌,
  length, All,
}
use mathlib.Core.List.{append_assoc}
use recursive_functions.Serializer.{
  Reader, ◌>>=◌, pure, write_bytes, read_bytes, Fits64, write_all, read_many, read_many-write_all,
  >>=-some, read_bytes-head, read_bytes-last, read_bytes-write_bytes,
}
use recursive_functions.Lexis.Token.{all_tokens}
use recursive_functions.Syntax.Parser.{Action, reject, accept, reduce, shift, Tables}

-- The index in the variant, and the numbers of the action.
unfoldable pub write_action : Action → List ℕ
write_action reject = write_bytes 0
write_action accept = write_bytes 1
write_action (reduce next remove_count production_index) =
    write_bytes 2
    ++ (write_bytes next ++ (write_bytes remove_count ++ write_bytes production_index))
write_action (shift next_state) = write_bytes 3 ++ write_bytes next_state

abbrev pub write_actions : List Action → List ℕ
write_actions = write_all write_action

abbrev pub write_gotos : List ℕ → List ℕ
write_gotos = write_all write_bytes

-- `goto_table.front().size()`
abbrev pub nonterms_count : List (List ℕ) → Option ℕ
nonterms_count [] = none
nonterms_count (row ∷ rows) = some (length row)

unfoldable pub write_tables : Tables → ℕ → List ℕ
unfolding write_action
write_tables tables nonterms =
    write_bytes (length tables.actions)
    ++ (write_bytes nonterms
        ++ (write_all write_actions tables.actions ++ write_all write_gotos tables.goto))

unfoldable pub serialize : Tables → Option (List ℕ)
unfolding write_tables
serialize tables = elim (nonterms_count tables.goto) [
  | none ↦ none
  | some nonterms ↦ some (write_tables tables nonterms)
]

-- The cases of the `switch`; at any other index the action stays the default one.
abbrev pub read_case : ℕ → Reader Action
read_case index =
    if index == 1
    then pure accept
    else if index == 0
    then pure reject
    else if index == 3
    then (do s ← read_bytes; pure (shift s))
    else if index == 2
    then (do
      next ← read_bytes
      remove_count ← read_bytes
      production_index ← read_bytes
      pure (reduce next remove_count production_index))
    else pure reject

unfoldable pub read_action : Reader Action
read_action = do index ← read_bytes; read_case index

abbrev pub read_actions : Reader (List Action)
read_actions = read_many read_action (length all_tokens)

abbrev pub read_tables : ℕ → ℕ → Reader Tables
read_tables states nonterms = do
  actions ← read_many read_actions states
  goto ← read_many (read_many read_bytes nonterms) states
  pure (record { actions = actions; goto = goto })

unfoldable pub deserialize : Reader Tables
unfolding read_action
deserialize = do states ← read_bytes; nonterms ← read_bytes; read_tables states nonterms

abbrev pub ActionFits64 : Action → Type 0
ActionFits64 reject = Unit
ActionFits64 accept = Unit
ActionFits64 (reduce next remove_count production_index) =
    Fits64 next × Fits64 remove_count × Fits64 production_index
ActionFits64 (shift next_state) = Fits64 next_state

abbrev pub ActionsFit : List Action → Type 0
ActionsFit row = (length row ≡ length all_tokens) × All ActionFits64 row

abbrev pub GotosFit : ℕ → List ℕ → Type 0
GotosFit nonterms row = (length row ≡ nonterms) × All Fits64 row

-- The shape of tables: a row for each state, an action for each token in the one and a goto for each
-- non-terminal in the other, in numbers of 64 bits.
pub record AreTables (tables : Tables) (nonterms : ℕ) : Type 0 where
  pub actions : All ActionsFit tables.actions
  pub gotos : All (GotosFit nonterms) tables.goto
  pub states : length tables.goto ≡ length tables.actions
  pub nonempty : 0 < length tables.actions
  pub states_fit : Fits64 (length tables.actions)
  pub nonterms_fit : Fits64 nonterms

read_action-write_action :
    (a : Action) (rest : List ℕ)
    → ActionFits64 a
    → read_action (write_action a ++ rest) ≡ some (a, rest)
unfolding read_action write_action
read_action-write_action reject rest h = read_bytes-last read_case 0 rest (omega arith)
read_action-write_action accept rest h = read_bytes-last read_case 1 rest (omega arith)
read_action-write_action (shift s) rest h =
    read_bytes-head read_case 3 (write_bytes s) rest (omega arith)
    ∙ read_bytes-last (λ s. pure (shift s)) s rest h
read_action-write_action (reduce next n index) rest (fn, fr, fi) =
    read_bytes-head read_case 2 (write_bytes next ++ (write_bytes n ++ write_bytes index)) rest
      (omega arith)
    ∙ read_bytes-head
        (λ next. read_bytes >>= λ n. read_bytes >>= λ index. pure (reduce next n index)) next
        (write_bytes n ++ write_bytes index) rest fn
    ∙ read_bytes-head (λ n. read_bytes >>= λ index. pure (reduce next n index)) n
        (write_bytes index) rest fr
    ∙ read_bytes-last (λ index. pure (reduce next n index)) index rest fi

read_actions-write_actions :
    (row : List Action) (rest : List ℕ)
    → ActionsFit row
    → read_actions (write_actions row ++ rest) ≡ some (row, rest)
read_actions-write_actions row rest (n, h) =
    ap (λ k. read_many read_action k (write_actions row ++ rest)) (sym n)
    ∙ read_many-write_all write_action read_action ActionFits64 read_action-write_action row rest h

read_gotos-write_gotos :
    (nonterms : ℕ) (row : List ℕ) (rest : List ℕ)
    → GotosFit nonterms row
    → read_many read_bytes nonterms (write_gotos row ++ rest) ≡ some (row, rest)
read_gotos-write_gotos nonterms row rest (n, h) =
    ap (λ k. read_many read_bytes k (write_gotos row ++ rest)) (sym n)
    ∙ read_many-write_all write_bytes read_bytes Fits64 read_bytes-write_bytes row rest h

read_tables-write :
    (tables : Tables) (nonterms : ℕ) (rest : List ℕ)
    → AreTables tables nonterms
    → read_tables
        (length tables.actions)
        nonterms
        (write_all write_actions tables.actions ++ (write_all write_gotos tables.goto ++ rest))
      ≡ some (tables, rest)
read_tables-write tables nonterms rest t =
    let gotos = write_all write_gotos tables.goto ++ rest in
    let next = λ (actions : List (List Action)).
      read_many (read_many read_bytes nonterms) (length tables.actions) >>= λ goto.
      pure (record { actions = actions; goto = goto }) in
    >>=-some (read_many read_actions (length tables.actions)) next
      (write_all write_actions tables.actions ++ gotos)
      (read_many-write_all write_actions read_actions ActionsFit read_actions-write_actions
        tables.actions gotos t.actions)
    ∙ >>=-some (read_many (read_many read_bytes nonterms) (length tables.actions))
        (λ goto. pure (record { actions = tables.actions; goto = goto })) gotos
        (ap (λ k. read_many (read_many read_bytes nonterms) k gotos) (sym t.states)
          ∙ read_many-write_all write_gotos (read_many read_bytes nonterms) (GotosFit nonterms)
              (read_gotos-write_gotos nonterms) tables.goto rest t.gotos)

nonterms_count_lem :
    (nonterms : ℕ) (goto : List (List ℕ))
    → 0 < length goto
    → All (GotosFit nonterms) goto
    → nonterms_count goto ≡ some nonterms
nonterms_count_lem nonterms [] positive h = absurd (omega arith)
nonterms_count_lem nonterms (row ∷ rows) positive h = ap some h.0.0

-- Tables of the right shape, with an action for each token and a goto for each nonterminal in every row,
-- as many rows in both, one at least, and numbers below 2 ^ 64, are written, and are read back from what was written; what follows in the
-- stream is left.
pub deserialize-serialize_tables :
    (tables : Tables) (nonterms : ℕ) (rest : List ℕ)
    → AreTables tables nonterms
    → (stream : List ℕ) × (serialize tables ≡ some stream)
      × (deserialize (stream ++ rest) ≡ some (tables, rest))
unfolding serialize deserialize write_tables
deserialize-serialize_tables tables nonterms rest t = (
  write_tables tables nonterms,
  rw (
    serialize,
    nonterms_count_lem nonterms tables.goto (omega (arith, t.states, t.nonempty)) t.gotos,
  ),
  read_bytes-head (λ states. read_bytes >>= λ nonterms. read_tables states nonterms)
        (length tables.actions)
        (write_bytes nonterms
          ++ (write_all write_actions tables.actions ++ write_all write_gotos tables.goto))
        rest t.states_fit
      ∙ read_bytes-head (λ nonterms. read_tables (length tables.actions) nonterms) nonterms
          (write_all write_actions tables.actions ++ write_all write_gotos tables.goto) rest
          t.nonterms_fit
      ∙ ap (read_tables (length tables.actions) nonterms) (
          append_assoc (write_all write_actions tables.actions) (write_all write_gotos tables.goto)
            rest)
      ∙ read_tables-write tables nonterms rest t,
)
