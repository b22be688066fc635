-- ===== src/Compilation/Semantics/Members.antt =====
-- src/compilation/semantics/MemberExprAnalysis.cpp: which accesses to members succeed, and what the cast
-- of the type itself, in place of the one behind an alias, does to them.
use recursive_functions.Prelude.{
  ℕ, suc, ◌≡◌, ◌≢◌, refl, ap, sym, subst, ◌∙◌, inl, inr, List, [], ◌∷◌, some, arith, ◌==◌, ==_refl,
  ==_iff, Bool-cases, Option, Option-cases, get_elem?, length, ltb, not, false, ◌+◌,
}
use recursive_functions.Compilation.Types.{
  TypePtr, StringId, TypeInfo, QualifiedId, Storage, get_original, get_kind,
}
use recursive_functions.Compilation.Semantics.{
  ok, deref, require, not_class, qualified_member, is_class, last, members_of, >>=-eq-ok, Expr,
  get_member_index, visit_member, found_member,
}

-- `IsAt name ms i p`: the first member called name is at i, and has the type p.
pub data IsAt (name : StringId) : List (StringId × TypePtr) → ℕ → TypePtr → Type 0 where
  here : {p : TypePtr} {ms : List (StringId × TypePtr)} → IsAt name ((name, p) ∷ ms) 0 p
  there :
      {n : StringId} {q p : TypePtr} {ms : List (StringId × TypePtr)} {i : ℕ}
      → n ≢ name
      → IsAt name ms i p
      → IsAt name ((n, q) ∷ ms) (suc i) p

ok_inj {ℓ} : {A : Type ℓ} {x y : A} → ok x ≡ ok y → x ≡ y
ok_inj h = cc

IsAt-get_elem? :
    {name : StringId} {ms : List (StringId × TypePtr)} {i : ℕ} {p : TypePtr}
    → IsAt name ms i p
    → get_elem? ms i ≡ some (name, p)
IsAt-get_elem? here = refl
IsAt-get_elem? (there n h) = IsAt-get_elem? h

==_false : {a b : ℕ} → a ≢ b → (a == b) ≡ false
==_false n = ground (arith, n)

get_member_index-IsAt :
    {name : StringId} {ms : List (StringId × TypePtr)} {i : ℕ} {p : TypePtr} (k : ℕ)
    → IsAt name ms i p
    → get_member_index ms name k ≡ some (k + i)
unfolding get_member_index
get_member_index-IsAt {name} k here = rw (==_refl name) (ap some (ground arith))
get_member_index-IsAt {name} k (there n h) =
    rw (==_false n) (get_member_index-IsAt (suc k) h ∙ ap some (ground arith))

found_member-IsAt :
    (name : StringId) (members : List (StringId × TypePtr)) {i : ℕ} {p : TypePtr}
    → IsAt name members i p
    → found_member members (get_member_index members name 0) ≡ ok (i, p)
found_member-IsAt name members {i} h =
    let at : get_member_index members name 0 ≡ some i =
      get_member_index-IsAt 0 h ∙ ap some (omega arith) in
    rw at (rw (found_member, IsAt-get_elem? h))

-- A simple access to the members of a class succeeds at the first member of that name: the node has
-- its type, and the category of the operand.
pub visit_member-IsAt :
    (storage : Storage) (left : Expr) (class_name : QualifiedId)
    (members : List (StringId × TypePtr)) (name : StringId) (i : ℕ) (p : TypePtr)
    → get_elem? storage left.type ≡ some (TypeInfo.class class_name members)
    → IsAt name members i p
    → visit_member storage left (name ∷ [])
      ≡ ok (i, record { type = p; category = left.category; conversions = [] })
unfolding visit_member
visit_member-IsAt storage left class_name members name i p e h =
    rw (deref, e) (rw (deref, get_original, e) (rw (found_member-IsAt name members h)))

get_member_index_sound :
    (name : StringId) (members : List (StringId × TypePtr)) (k : ℕ) {r : ℕ}
    → get_member_index members name k ≡ some r
    → (i : ℕ) × (p : TypePtr) × (r ≡ k + i) × IsAt name members i p
unfolding get_member_index
get_member_index_sound name [] k h = absurd (cc)
get_member_index_sound name ((n, p) ∷ members) k {r} h = elim (Bool-cases (n == name)) [
  | inl same ↦
      let h' = rw (get_member_index, same) at h in
      let equal = (==_iff n name).0 same in
      (0, p, ground (arith, h'), subst (λ m. IsAt name ((m, p) ∷ members) 0 p) (sym equal) here)
  | inr differ ↦
      let h' = rw (get_member_index, differ) at h in
      let (i, q, e, at) = get_member_index_sound name members (suc k) h' in
      (
        suc i,
        q,
        omega (arith, e),
        there (λ equal. absurd (cc ((==_iff n name).1 equal, differ))) at,
      )
]

found_member_sound :
    (name : StringId) (members : List (StringId × TypePtr)) {r : ℕ × TypePtr}
    → found_member members (get_member_index members name 0) ≡ ok r
    → IsAt name members r.0 r.1
found_member_sound name members {r} h = elim (Option-cases (get_member_index members name 0)) [
  | inl missing ↦ absurd (cc (h, ap (found_member members) missing))
  | inr (k, e) ↦
      let (i, p, same, at) = get_member_index_sound name members 0 e in
      let index : k ≡ i = omega (arith, same) in
      let found : found_member members (some i) ≡ ok (i, p) =
        rw (found_member, IsAt-get_elem? at) in
      let made : ok (i, p) ≡ ok r =
        sym found ∙ sym (ap (found_member members) (e ∙ ap some index)) ∙ h in
      subst (λ (x : ℕ × TypePtr). IsAt name members x.0 x.1) (ok_inj made) at
]

deref-ok :
    (storage : Storage) (p : TypePtr) {t : TypeInfo}
    → deref storage p ≡ ok t
    → get_elem? storage p ≡ some t
deref-ok storage p h = ground arith

members_of-ok :
    (t : TypeInfo) {members : List (StringId × TypePtr)}
    → members_of t ≡ ok members
    → (name : QualifiedId) × (t ≡ TypeInfo.class name members)
members_of-ok (TypeInfo.class name members) h = (name, ap (TypeInfo.class name) (ok_inj h))
members_of-ok t h = absurd (cc)

last-ok :
    (parts : List StringId) {name : StringId}
    → require (not (ltb 1 (length parts))) qualified_member ≡ ok tt
    → last parts ≡ ok name
    → parts ≡ name ∷ []
last-ok [] h e = absurd (cc)
last-ok (x ∷ []) h e = ap (λ n. n ∷ []) (ok_inj e)
last-ok (x ∷ y ∷ parts) h e = absurd (ground (arith, h))

class_no_alias :
    {found : Option TypeInfo} {class_name : QualifiedId} {members : List (StringId × TypePtr)}
    → found ≡ some (TypeInfo.class class_name members)
    → (name : QualifiedId) (original : TypePtr) → found ≢ some (TypeInfo.alias name original)
class_no_alias class_found name original alias_found = cc

-- What an access that succeeds has found.
abbrev pub IsAccess : Storage → Expr → List StringId → ℕ × Expr → Type 0
IsAccess storage left parts (i, node) =
    (class_name : QualifiedId) × (members : List (StringId × TypePtr)) × (name : StringId) × (parts
      ≡ name ∷ [])
    × (get_elem? storage left.type ≡ some (TypeInfo.class class_name members))
    × IsAt name members i node.type
    × (node.category ≡ left.category)
    × (node.conversions ≡ [])

-- An access to a member that succeeds has one name only, and the type of the operand is a class, and
-- no alias, not even one of a class. The index is that of the first member of the name, and the node
-- has its type, the category of the operand and no conversions.
pub visit_member-IsAccess :
    (storage : Storage) (left : Expr) (parts : List StringId) (r : ℕ × Expr)
    → visit_member storage left parts ≡ ok r
    → IsAccess storage left parts r
      × ((name : QualifiedId) (original : TypePtr)
          → get_elem? storage left.type ≢ some (TypeInfo.alias name original))
unfolding visit_member
visit_member-IsAccess storage left parts r h =
    let (t, e, h1) = >>=-eq-ok (deref storage left.type) _ h in
    let (resolved, e2, h2) = >>=-eq-ok (deref storage (get_original left.type t)) _ h1 in
    let (_, e3, h3) = >>=-eq-ok (require (is_class (get_kind resolved)) not_class) _ h2 in
    let (_, e4, h4) = >>=-eq-ok (require (not (ltb 1 (length parts))) qualified_member) _ h3 in
    let (name, e5, h5) = >>=-eq-ok (last parts) _ h4 in
    let (members, e6, h6) = >>=-eq-ok (members_of t) _ h5 in
    let (found, e7, h7) = >>=-eq-ok (found_member members (get_member_index members name 0)) _ h6 in
    let (class_name, is_class_) = members_of-ok t e6 in
    let at = found_member_sound name members e7 in
    let stored_ = deref-ok storage left.type e ∙ ap some is_class_ in
    (
      subst (IsAccess storage left parts) (ok_inj h7)
          (class_name, members, name, last-ok parts e4 e5, stored_, at, refl, refl),
      class_no_alias stored_,
    )
