-- ===== src/Lexis/Compact/Equivalence.antt =====
-- The compacted table and the table it was made from scan every ASCII text alike.
use recursive_functions.Prelude.{
  ℕ, zero, suc, ◌+◌, ◌-◌, ◌≤◌, ◌<◌, ◌≡◌, refl, sym, ◌∙◌, ap, subst, inl, inr, false, List, [], ◌∷◌,
  some, arith, leb, length, get_elem?, get_elem?-some, get_elem?-lt, traverse, get_elem?-traverse,
  Bool-cases,
}
use recursive_functions.Sources.Location.{SourceLocation, advance, retreat, location_eq}
use recursive_functions.Sources.View.{SourceView, end_location}
use recursive_functions.Lexis.Token.{TokenType}
use recursive_functions.Lexis.Jump.{
  Jump, next_state, finish, reject, JumpTable, Table, characters_count,
}
use recursive_functions.Lexis.Analyzer.{
  done, token_at, lookup_jump, follow, loop_fuel, token_loop, get_token_internal,
}
use recursive_functions.Lexis.WellFormed.{IsLexical, IsSmall, IsAscii, At, JumpFits, FirstConsumes}
use recursive_functions.Lexis.Analyzer.Reading.{At-advance}
use recursive_functions.Lexis.Analyzer.Scanning.{
  SymbolAt, Promise, lookup_total, read_symbol-total, ascii_symbol,
}
use recursive_functions.Lexis.Compact.{can_compact_node, compact_loop, redirect, compact}
use recursive_functions.Lexis.Compact.Mapping.{
  MapsTo, can_compact_node-get, can_compact_node-first, compact_loop-MapsTo, compact_loop-first,
}

abbrev pub compacted_of : Table → Table
compacted_of table = (compact_loop table [] []).0

abbrev pub mapping_of : Table → List Jump
mapping_of table = (compact_loop table [] []).1

-- State s of the table is kept as state i.
abbrev Kept : Table → ℕ → ℕ → Type 0
Kept table s i =
    (row : JumpTable) × (get_elem? table s ≡ some row)
    × (get_elem? (compacted_of table) i ≡ some row)

pub maps_to :
    (table : Table) (s : ℕ) {row : JumpTable}
    → get_elem? table s ≡ some row
    → MapsTo (compacted_of table) row (get_elem? (mapping_of table) s)
maps_to table s e = compact_loop-MapsTo table [] [] s s e (omega arith)

lookup_row :
    (table : Table) (s c : ℕ) {row : JumpTable}
    → get_elem? table s ≡ some row
    → lookup_jump table s c ≡ get_elem? row c
lookup_row table s c e = rw (e, lookup_jump)

-- A jump out of a kept state is redirected.
lookup_compact :
    (table small_table : Table) (s i c : ℕ) {j : Jump}
    → compact table ≡ some small_table
    → Kept table s i
    → lookup_jump table s c ≡ some j
    → lookup_jump small_table i c ≡ redirect (mapping_of table) j
unfolding compact
lookup_compact table small_table s i c e (row, es, ei) ej =
    let f = redirect (mapping_of table) in
    let (row', works, found) =
      get_elem?-traverse (traverse f) (compacted_of table) small_table i e ei in
    let (j', redirected, there) =
      get_elem?-traverse f row row' c works (sym (lookup_row table s c es) ∙ ej) in
    lookup_row small_table i c found ∙ there ∙ sym redirected

-- Where state s is left out, the next symbol of an ASCII text finishes its token at once.
finish_now :
    (table : Table) (v : SourceView) (fuel : ℕ) (begin cur : SourceLocation) (s k n : ℕ)
    (t : TokenType) {row : JumpTable}
    → IsLexical table
    → IsSmall v
    → IsAscii v.text
    → At v cur k
    → k ≤ length v.text
    → get_elem? table s ≡ some row
    → can_compact_node row ≡ some (n, t)
    → token_loop (suc fuel) table v begin cur s ≡ done (token_at t begin (retreat cur (n - 1)))
unfolding token_loop
finish_now table v fuel begin cur s k n t {row} w small ascii at h es found =
    let (c, ec, sym_) = read_symbol-total v cur k small at h in
    let low = ascii_symbol v k c ascii sym_ in
    let (j, ej, promise) = lookup_total table s c w (get_elem?-lt table s es) low in
    let (is_finish, pos) = can_compact_node-get row c found (sym (lookup_row table s c es) ∙ ej) in
    let is_low : leb characters_count c ≡ false = ground arith in
    rw (ec, token_loop, is_low)
      (rw (ej ∙ ap some is_finish) (
        ap (λ (x : SourceLocation). done (token_at t begin x))
          (back cur n (fits j n t is_finish promise.0) pos)))
  where
    fits : (j : Jump) (n : ℕ) (t : TokenType) → j ≡ finish n t → JumpFits (length table) j → n ≤ 1
    fits j n t e p = subst (JumpFits (length table)) e p

    back :
        (l : SourceLocation) (n : ℕ) → n ≤ 1 → 0 < n → retreat (advance l 1) n ≡ retreat l (n - 1)
    back l n one pos = ground arith

module _ (table small_table : Table) (v : SourceView) (w : IsLexical table) (small : IsSmall v)
    (ascii : IsAscii v.text) (made : compact table ≡ some small_table) where
  follow_compact :
      (fuel : ℕ) (begin cur : SourceLocation) (s i k c : ℕ) (j : Jump)
      → At v cur k
      → SymbolAt v k c
      → Promise table s c j
      → length v.text < k + suc fuel
      → ((s' i' : ℕ)
          → k < length v.text
          → Kept table s' i'
          → token_loop fuel small_table v begin (advance cur 1) i'
            ≡ token_loop fuel table v begin (advance cur 1) s')
      → follow
          (redirect (mapping_of table) j)
          begin
          (advance cur 1)
          (token_loop fuel small_table v begin (advance cur 1))
        ≡ follow (some j) begin (advance cur 1) (token_loop fuel table v begin (advance cur 1))
  unfolding redirect
  follow_compact fuel begin cur s i k c reject at sym_ p pos ih = refl
  follow_compact fuel begin cur s i k c (finish n t) at sym_ p pos ih = refl
  follow_compact fuel begin cur s i k c (next_state s') at (inl (_, z)) p pos ih = absurd (p.1 z)
  follow_compact zero begin cur s i k c (next_state s') at (inr (lt, _)) p pos ih =
      absurd (omega arith)
  follow_compact (suc fuel) begin cur s i k c (next_state s') at (inr (lt, _)) p pos ih =
      let (row, er) = get_elem?-some table s' p.0 in
      elim (maps_to table s' er) [
        | inl (_, (i', em, ei)) ↦ rw em (ih s' i' lt (row, er, ei))
        | inr (n, t, found, em) ↦ rw em (
            sym (
              finish_now table v fuel begin (advance cur 1) s' (k + 1) n t w small ascii
                (At-advance v cur k small at (omega arith)) (omega arith) er found))
      ]

  token_loop-compact :
      (fuel : ℕ) (begin cur : SourceLocation) (s i k : ℕ)
      → Kept table s i
      → At v cur k
      → k ≤ length v.text
      → length v.text < k + fuel
      → token_loop fuel small_table v begin cur i ≡ token_loop fuel table v begin cur s
  unfolding token_loop
  token_loop-compact zero begin cur s i k kept at h hf = refl
  token_loop-compact (suc fuel) begin cur s i k kept at h hf =
      let (c, ec, sym_) = read_symbol-total v cur k small at h in
      let low = ascii_symbol v k c ascii sym_ in
      let is_low : leb characters_count c ≡ false = ground arith in
      let (j, ej, promise) = lookup_total table s c w (get_elem?-lt table s kept.1) low in
      rw (ec, token_loop, is_low)
        (rw (lookup_compact table small_table s i c made kept ej, ej)
          (follow_compact fuel begin cur s i k c j at sym_ promise hf λ s' i' lt kept'.
            token_loop-compact fuel begin (advance cur 1) s' i' (k + 1) kept'
              (At-advance v cur k small at h) (omega arith) (omega arith)))

-- The first state is kept, as the first state.
first-Kept : (table : Table) → FirstConsumes table → Kept table 0 0
first-Kept [] h = absurd h
first-Kept (row ∷ rows) h = (row, refl, compact_loop-first row rows (can_compact_node-first row h))

-- On a well-formed table whose compaction is `small_table`, from every position of an ASCII text, the
-- two tables give the same token.
pub get_token_internal-compact :
    (table small_table : Table) (v : SourceView) (l : SourceLocation) (k : ℕ)
    → IsLexical table
    → compact table ≡ some small_table
    → IsSmall v
    → IsAscii v.text
    → At v l k
    → k ≤ length v.text
    → get_token_internal small_table v l ≡ get_token_internal table v l
unfolding get_token_internal
get_token_internal-compact table small_table v l k w made small ascii at h =
    elim (Bool-cases (location_eq l (end_location v))) [
      | inl e ↦ rw e
      | inr e ↦ rw e (
          token_loop-compact table small_table v w small ascii made (loop_fuel v) l l 0 0 k
            (first-Kept table w.first) at h (omega arith))
    ]
