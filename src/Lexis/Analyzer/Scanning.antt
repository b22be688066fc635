-- ===== src/Lexis/Analyzer/Scanning.antt =====
-- One run of `token_loop` over a well-formed table: it ends, and where its token ends.
use recursive_functions.Prelude.{
  ℕ, zero, suc, ◌+◌, ◌-◌, ◌≤◌, ◌<◌, ◌≡◌, refl, ◌⊎◌, inl, inr, some, arith, length, get_elem?,
  get_elem?-some, All-get, leb, Bool-cases,
}
use recursive_functions.Sources.Location.{SourceLocation, advance}
use recursive_functions.Sources.View.{SourceView}
use recursive_functions.Lexis.Token.{error, Token}
use recursive_functions.Lexis.Jump.{Jump, next_state, finish, reject, Table, characters_count}
use recursive_functions.Lexis.Analyzer.{
  Scan, done, token_at, read_symbol, lookup_jump, follow, token_loop,
}
use recursive_functions.Lexis.WellFormed.{
  IsLexical, IsSmall, IsAscii, At, JumpFits, StopsAtEnd, Consumes, RowFits, get-zero_stops,
  FirstConsumes-get,
}
use recursive_functions.Lexis.Analyzer.Reading.{At-advance, read_symbol-end, read_symbol-inside}

-- What the entry for a state and a symbol promises.
abbrev pub Promise : Table → ℕ → ℕ → Jump → Type 0
Promise table st c j = JumpFits (length table) j × (c ≡ 0 → StopsAtEnd j) × (st ≡ 0 → Consumes j)

pub lookup_total :
    (table : Table) (st c : ℕ)
    → IsLexical table
    → st < length table
    → c < characters_count
    → (j : Jump) × (lookup_jump table st c ≡ some j) × Promise table st c j
lookup_total table st c w hs hc =
    let (row, er) = get_elem?-some table st hs in
    let fits = All-get (RowFits (length table)) table st w.rows er in
    let (j, ej) = get_elem?-some row c (omega arith) in
    (
      j,
      ground arith,
      (
        All-get (JumpFits (length table)) row c fits.1 ej,
        λ z. get-zero_stops row fits.2 (ground arith),
        λ z. FirstConsumes-get table c w.first (ground (arith, z)) ej,
      ),
    )

-- The symbol at the k-th position; it is 0 at the end.
abbrev pub SymbolAt : SourceView → ℕ → ℕ → Type 0
SymbolAt v k c =
    ((k ≡ length v.text) × (c ≡ 0)) ⊎ ((k < length v.text) × (get_elem? v.text k ≡ some c))

pub read_symbol-total :
    (v : SourceView) (cur : SourceLocation) (k : ℕ)
    → IsSmall v
    → At v cur k
    → k ≤ length v.text
    → (c : ℕ) × (read_symbol v cur ≡ some c) × SymbolAt v k c
read_symbol-total v cur k small at h = elim (ends_or_goes_on k (length v.text) h) [
  | inl e ↦ (0, read_symbol-end v cur k small at e, inl (e, refl))
  | inr lt ↦
      let (c, e) = get_elem?-some v.text k lt in
      (c, ground (arith, read_symbol-inside v cur k small at lt, e), inr (lt, e))
]
  where
    ends_or_goes_on : (a b : ℕ) → a ≤ b → (a ≡ b) ⊎ (a < b)
    ends_or_goes_on a b p = omega arith

-- A token of a scan from `begin`: an error, or one that ends at a position from `lo` on.
abbrev pub Scanned : SourceView → SourceLocation → ℕ → Token → Type 0
Scanned v begin lo t =
    (t.source_range.begin ≡ begin)
    × ((t.type ≡ error) ⊎ ((e : ℕ) × At v t.source_range.end e × (lo ≤ e) × (e ≤ length v.text)))

-- The scan ends with a token, and on an ASCII text with a good one.
abbrev pub Scans : SourceView → SourceLocation → ℕ → Scan Token → Type 0
Scans v begin lo r = (t : Token) × (r ≡ done t) × (IsAscii v.text → Scanned v begin lo t)

-- The lower bound on the end holds already, or it will hold after this symbol.
abbrev pub Owed : ℕ → ℕ → ℕ → Type 0
Owed lo k st = (lo ≤ k) ⊎ ((lo ≤ k + 1) × (st ≡ 0))

follow-Scans :
    (table : Table) (v : SourceView) (begin cur : SourceLocation) (lo k c st : ℕ) (j : Jump)
    (next : ℕ → Scan Token)
    → IsSmall v
    → At v cur k
    → SymbolAt v k c
    → Owed lo k st
    → Promise table st c j
    → ((s : ℕ) → s < length table → k < length v.text → Scans v begin lo (next s))
    → Scans v begin lo (follow (some j) begin (advance cur 1) next)
follow-Scans table v begin cur lo k c st (next_state s) next small at (inl (_, z)) owed p go =
    absurd (p.1 z)
follow-Scans table v begin cur lo k c st (next_state s) next small at (inr (h, _)) owed p go =
    go s p.0 h
follow-Scans table v begin cur lo k c st (finish n t) next small at (inl (h, z)) owed p go = (
  _,
  refl,
  λ ascii. (refl, inr (k, ground (arith, p.1 z), ground (arith, p.1 z, p.2), omega arith)),
)
follow-Scans table v begin cur lo k c st (finish n t) next small at (inr (h, _)) owed p go = (
  _,
  refl,
  λ ascii.
      (refl, inr (k + 1 - n, ground (arith, p.0), ground (arith, p.0, p.2), omega (arith, p.0))),
)
follow-Scans table v begin cur lo k c st reject next small at sym owed p go =
    (_, refl, λ ascii. (refl, inl refl))

pub ascii_symbol :
    (v : SourceView) (k c : ℕ) → IsAscii v.text → SymbolAt v k c → c < characters_count
ascii_symbol v k c ascii (inl (_, z)) = omega arith
ascii_symbol v k c ascii (inr (_, e)) = All-get (λ x. x < characters_count) v.text k ascii e

module _ (table : Table) (v : SourceView) (w : IsLexical table) (small : IsSmall v) where
  pub token_loop-Scans :
      (fuel : ℕ) (begin cur : SourceLocation) (lo st k : ℕ)
      → st < length table
      → At v cur k
      → k ≤ length v.text
      → length v.text < k + fuel
      → Owed lo k st
      → Scans v begin lo (token_loop fuel table v begin cur st)
  unfolding token_loop
  token_loop-Scans zero begin cur lo st k hs at hk hf owed = absurd (omega arith)
  token_loop-Scans (suc fuel) begin cur lo st k hs at hk hf owed =
      let (c, ec, sym) = read_symbol-total v cur k small at hk in
      elim (Bool-cases (leb characters_count c)) [
        | inl big ↦ (
          token_at error (advance cur 1) (advance cur 1),
          rw (ec, token_loop, big),
          λ ascii. absurd (ground (arith, ascii_symbol v k c ascii sym)),
        )
        | inr ascii ↦
            let (j, ej, promise) = lookup_total table st c w hs (ground arith) in
            rw (ec, token_loop, ascii, ej)
              (follow-Scans table v begin cur lo k c st j
                (token_loop fuel table v begin (advance cur 1)) small at sym owed promise
                λ s h lt.
                  token_loop-Scans fuel begin (advance cur 1) lo s (k + 1) h
                    (At-advance v cur k small at hk) (omega arith) (omega arith)
                    (inl (omega arith)))
      ]
