-- ===== src/Syntax/Grammar/Reduction.antt =====
-- src/syntax/grammar/Grammar.cpp, `generate_reduced_productions`: a production with any of its
-- nonterminals that derive the empty text left out.
use recursive_functions.Prelude.{
  ℕ, ◌≡◌, ◌⊎◌, inl, inr, ◌↔◌, refl, ap, sym, subst, ◌∙◌, List, [], ◌∷◌, ◌++◌, map, Bool, true,
  false, not, if◌then◌else◌, contains, Bool-cases,
}
use mathlib.Core.List.{append_assoc, append-nil}
use recursive_functions.Syntax.Grammar.{Part, terminal, nonterminal, Production, add_part}

-- Whether a part stays in every reduced production.
abbrev pub stays : List ℕ → Part → Bool
stays epsilon (terminal t) = true
stays epsilon (nonterminal n) = not (contains epsilon n)

-- One round of the `for`; the copies without the part stand behind.
abbrev pub reduce_part : List ℕ → Part → List Production → List Production
reduce_part epsilon part result =
    let added = map (add_part part) result in if stays epsilon part then added else added ++ result

abbrev pub reduce_parts : List ℕ → Production → List Production → List Production
reduce_parts epsilon [] result = result
reduce_parts epsilon (p ∷ ps) result = reduce_parts epsilon ps (reduce_part epsilon p result)

unfoldable pub generate_reduced_productions : Production → List ℕ → List Production
generate_reduced_productions production epsilon = reduce_parts epsilon production ([] ∷ [])

-- The second production is the first with some parts left out, each of which may be.
pub data Omits (epsilon : List ℕ) : Production → Production → Type 0 where
  nothing : Omits epsilon [] []
  keep : {ps qs : Production} (p : Part) → Omits epsilon ps qs → Omits epsilon (p ∷ ps) (p ∷ qs)
  omit :
      {ps qs : Production} (p : Part)
      → stays epsilon p ≡ false
      → Omits epsilon ps qs
      → Omits epsilon (p ∷ ps) qs

abbrev pub IsIn : Production → List Production → Type 0
IsIn q [] = ⊥
IsIn q (p ∷ ps) = (p ≡ q) ⊎ IsIn q ps

IsIn-append :
    (q : Production) (ps rs : List Production) → IsIn q (ps ++ rs) ↔ (IsIn q ps ⊎ IsIn q rs)
IsIn-append q [] rs = (inr, λ h. elim h [ inl a ↦ elim a [ ] | inr a ↦ a ])
IsIn-append q (p ∷ ps) rs =
    let r = IsIn-append q ps rs in
    (
      λ h. elim h [
        | inl a ↦ inl (inl a)
        | inr a ↦ elim (r.0 a) [ inl b ↦ inl (inr b) | inr b ↦ inr b ]
      ],
      λ h. elim h [
        | inl (inl a) ↦ inl a
        | inl (inr a) ↦ inr (r.1 (inl a))
        | inr a ↦ inr (r.1 (inr a))
      ],
    )

IsIn-map :
    (part : Part) (ps : List Production) (q : Production)
    → IsIn q (map (add_part part) ps)
    → (p : Production) × IsIn p ps × (add_part part p ≡ q)
IsIn-map part [] q h = elim h [ ]
IsIn-map part (p ∷ ps) q (inl e) = (p, inl refl, e)
IsIn-map part (p ∷ ps) q (inr h) = let (p, i, e) = IsIn-map part ps q h in (p, inr i, e)

IsIn-map_back :
    (part : Part) (ps : List Production) (p : Production)
    → IsIn p ps
    → IsIn (add_part part p) (map (add_part part) ps)
IsIn-map_back part [] p h = elim h [ ]
IsIn-map_back part (q ∷ ps) p (inl e) = inl (ap (add_part part) e)
IsIn-map_back part (q ∷ ps) p (inr h) = inr (IsIn-map_back part ps p h)

reduce_part_iff :
    (epsilon : List ℕ) (part : Part) (result : List Production) (q : Production)
    → IsIn q (reduce_part epsilon part result) ↔ (
        ((p : Production) × IsIn p result × (add_part part p ≡ q))
        ⊎ ((stays epsilon part ≡ false) × IsIn q result))
reduce_part_iff epsilon part result q = elim (Bool-cases (stays epsilon part)) [
  | inl e ↦ rw e (
    λ h. inl (IsIn-map part result q h),
    λ h. elim h [
      | inl (p, i, same) ↦
          subst (λ q. IsIn q (map (add_part part) result)) same (IsIn-map_back part result p i)
      | inr (bad, i) ↦ absurd (cc)
    ],
  )
  | inr e ↦
      let both = IsIn-append q (map (add_part part) result) result in
      rw e (
        λ h. elim (both.0 h) [ inl a ↦ inl (IsIn-map part result q a) | inr a ↦ inr (refl, a) ],
        λ h. elim h [
          | inl (p, i, same) ↦ both.1 (
              inl (
                subst (λ q. IsIn q (map (add_part part) result)) same
                  (IsIn-map_back part result p i)))
          | inr (bad, i) ↦ both.1 (inr i)
        ],
      )
]

-- Every result so far, followed by a reduction of the parts that are left.
abbrev IsExtension : List ℕ → Production → List Production → Production → Type 0
IsExtension epsilon ps result q =
    (p : Production) × (r : Production) × IsIn p result × Omits epsilon ps r × (p ++ r ≡ q)

reduce_parts_sound :
    (epsilon : List ℕ) (ps : Production) (result : List Production) (q : Production)
    → IsIn q (reduce_parts epsilon ps result)
    → IsExtension epsilon ps result q
reduce_parts_sound epsilon [] result q h = (q, [], h, nothing, append-nil q)
reduce_parts_sound epsilon (part ∷ ps) result q h =
    let (p, r, i, o, e) = reduce_parts_sound epsilon ps (reduce_part epsilon part result) q h in
    elim ((reduce_part_iff epsilon part result p).0 i) [
      | inl (p', i', e') ↦ (
        p',
        part ∷ r,
        i',
        keep part o,
        sym (append_assoc p' (part ∷ []) r) ∙ ap (λ p. p ++ r) e' ∙ e,
      )
      | inr (out, i') ↦ (p, r, i', omit part out o, e)
    ]

reduce_parts_complete :
    (epsilon : List ℕ) (result : List Production) {ps r : Production} (p : Production)
    → Omits epsilon ps r
    → IsIn p result
    → IsIn (p ++ r) (reduce_parts epsilon ps result)
reduce_parts_complete epsilon result p nothing i = subst (λ q. IsIn q result) (sym (append-nil p)) i
reduce_parts_complete epsilon result p (keep {ps = ps} {qs = r} part o) i =
    subst (λ q. IsIn q (reduce_parts epsilon ps (reduce_part epsilon part result)))
      (append_assoc p (part ∷ []) r)
      (reduce_parts_complete epsilon (reduce_part epsilon part result) (add_part part p) o
        ((reduce_part_iff epsilon part result (add_part part p)).1 (inl (p, i, refl))))
reduce_parts_complete epsilon result p (omit part out o) i =
    reduce_parts_complete epsilon (reduce_part epsilon part result) p o
      ((reduce_part_iff epsilon part result p).1 (inr (out, i)))

-- The reduced productions are exactly those that leave out some of the nonterminals that derive the
-- empty text, and nothing else.
pub generate_reduced_productions-Omits :
    (production : Production) (epsilon : List ℕ) (q : Production)
    → IsIn q (generate_reduced_productions production epsilon) ↔ Omits epsilon production q
unfolding generate_reduced_productions
generate_reduced_productions-Omits production epsilon q = (
  λ h.
      let (p, r, i, o, e) = reduce_parts_sound epsilon production ([] ∷ []) q h in
      elim i [
        | inl same ↦ subst (Omits epsilon production) (ap (λ p. p ++ r) same ∙ e) o
        | inr bad ↦ elim bad [ ]
      ],
  λ o. reduce_parts_complete epsilon ([] ∷ []) [] o (inl refl),
)
