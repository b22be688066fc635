-- ===== src/Lexis/Compact/Preservation.antt =====
-- The compaction of a well-formed table is a well-formed table.
use recursive_functions.Prelude.{
  ℕ, ◌-◌, ◌≤◌, ◌≡◌, refl, sym, ◌∙◌, subst, inl, inr, List, [], ◌∷◌, some, arith, length, get_elem?,
  get_elem?-some, get_elem?-lt, All, All-get, traverse, traverse-nil, traverse-cons,
  get_elem?-traverse, length-traverse, traverse-All,
}
use recursive_functions.Lexis.Jump.{Jump, next_state, finish, reject, JumpTable, Table}
use recursive_functions.Lexis.WellFormed.{
  IsLexical, RowFits, JumpFits, Consumes, HeadStops, FirstConsumes,
}
use recursive_functions.Lexis.Compact.{redirect, compact}
use recursive_functions.Lexis.Compact.Mapping.{
  can_compact_node-get, can_compact_node-first, compact_loop-first, compact_loop-All,
}
use recursive_functions.Lexis.Compact.Equivalence.{compacted_of, mapping_of, maps_to}

abbrev Good : ℕ → Jump → Type 0
Good n j = JumpFits n j × Consumes j

-- A redirected jump fits the compacted table, and never gives back more than before.
redirect-Good :
    (table : Table) (j : Jump)
    → All (RowFits (length table)) table
    → JumpFits (length table) j
    → (j' : Jump) × (redirect (mapping_of table) j ≡ some j')
      × JumpFits (length (compacted_of table)) j'
      × (Consumes j → Consumes j')
unfolding redirect
redirect-Good table (next_state s) rows p =
    let (row, er) = get_elem?-some table s p in
    let fits = All-get (RowFits (length table)) table s rows er in
    elim (maps_to table s er) [
      | inl (_, (i, em, ei)) ↦ (next_state i, em, get_elem?-lt (compacted_of table) i ei, λ c. tt)
      | inr (n, t, found, em) ↦
          let (j, ej) = get_elem?-some row 0 (omega arith) in
          let (e, pos) = can_compact_node-get row 0 found ej in
          let one : n ≤ 1 =
            subst (JumpFits (length table)) e (All-get (JumpFits (length table)) row 0 fits.1 ej) in
          (finish (n - 1) t, em, omega arith, λ c. omega arith)
    ]
redirect-Good table (finish n t) rows p = (finish n t, refl, p, λ c. c)
redirect-Good table reject rows p = (reject, refl, tt, λ c. tt)

HeadStops-redirect :
    (mapping : List Jump) (row row' : JumpTable)
    → traverse (redirect mapping) row ≡ some row'
    → HeadStops row
    → HeadStops row'
unfolding redirect
HeadStops-redirect mapping [] row' e h = absurd h
HeadStops-redirect mapping (next_state s ∷ row) row' e h = absurd h
HeadStops-redirect mapping (finish n t ∷ row) row' e h =
    let (z, zs, split, head, _) = traverse-cons (redirect mapping) (finish n t) row row' e in
    rw split (ground (arith, head, h))
HeadStops-redirect mapping (reject ∷ row) row' e h =
    let (z, zs, split, head, _) = traverse-cons (redirect mapping) reject row row' e in
    rw split (ground (arith, head))

row-RowFits :
    (table : Table) (row : JumpTable)
    → All (RowFits (length table)) table
    → RowFits (length table) row
    → (row' : JumpTable) × (traverse (redirect (mapping_of table)) row ≡ some row')
      × RowFits (length (compacted_of table)) row'
row-RowFits table row rows (size, jumps, head) =
    let f = redirect (mapping_of table) in
    let (row', e, fits) =
      traverse-All f (JumpFits (length table)) (JumpFits (length (compacted_of table)))
        (λ j p. let (j', e', p', _) = redirect-Good table j rows p in (j', e', p')) row jumps in
    (
      row',
      e,
      (
        length-traverse f row row' e ∙ size,
        fits,
        HeadStops-redirect (mapping_of table) row row' e head,
      ),
    )

row-Consumes :
    (table : Table) (row row' : JumpTable)
    → All (RowFits (length table)) table
    → All (JumpFits (length table)) row
    → All Consumes row
    → traverse (redirect (mapping_of table)) row ≡ some row'
    → All Consumes row'
row-Consumes table [] row' rows fits h e =
    subst (All Consumes) (traverse-nil (redirect (mapping_of table)) row' e) tt
row-Consumes table (j ∷ row) row' rows fits h e =
    let f = redirect (mapping_of table) in
    let (z, zs, split, head, tail) = traverse-cons f j row row' e in
    let (j', head', _, keeps) = redirect-Good table j rows fits.0 in
    let same : j' ≡ z = cc in
    rw split (subst Consumes same (keeps h.0), row-Consumes table row zs rows fits.1 h.1 tail)

FirstConsumes-of :
    (table : Table) {row : JumpTable}
    → get_elem? table 0 ≡ some row
    → All Consumes row
    → FirstConsumes table
FirstConsumes-of [] e h = absurd (ground arith)
FirstConsumes-of (r ∷ rows) {row} e h = subst (All Consumes) (cc) h

first-FirstConsumes :
    (table small_table : Table)
    → All (RowFits (length table)) table
    → FirstConsumes table
    → traverse (traverse (redirect (mapping_of table))) (compacted_of table) ≡ some small_table
    → FirstConsumes small_table
first-FirstConsumes [] small_table rows h e = absurd h
first-FirstConsumes (row ∷ table) small_table rows h e =
    let kept = compact_loop-first row table (can_compact_node-first row h) in
    let (row', er, there) =
      get_elem?-traverse (traverse (redirect (mapping_of (row ∷ table))))
        (compacted_of (row ∷ table)) small_table 0 e kept in
    FirstConsumes-of small_table there (row-Consumes (row ∷ table) row row' rows rows.0.1 h er)

-- The compaction of a well-formed table never reads outside of its mapping, and gives a well-formed
-- table again.
pub compact-IsLexical :
    (table : Table)
    → IsLexical table
    → (small_table : Table) × (compact table ≡ some small_table) × IsLexical small_table
unfolding compact
compact-IsLexical table w =
    let f = traverse (redirect (mapping_of table)) in
    let (small_table, e, fits) =
      traverse-All f (RowFits (length table)) (RowFits (length (compacted_of table)))
        (λ row p. row-RowFits table row w.rows p) (compacted_of table)
        (compact_loop-All (RowFits (length table)) table [] [] w.rows tt) in
    let size = length-traverse f (compacted_of table) small_table e in
    (
      small_table,
      e,
      record {
        rows = subst (λ n. All (RowFits n) small_table) (sym size) fits;
        first = first-FirstConsumes table small_table w.rows w.first e;
      },
    )
