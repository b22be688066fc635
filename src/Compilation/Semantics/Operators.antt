-- ===== src/Compilation/Semantics/Operators.antt =====
-- The typing of operators and calls, against rules that do not mention the order of the tests.
use recursive_functions.Prelude.{
  ℕ, suc, ◌≡◌, refl, ap, sym, subst, ◌∙◌, ◌⊎◌, inl, inr, ◌↔◌, true, false, List, [], ◌∷◌, some,
  arith, ◌&&◌, ◌==◌, ==_refl, if◌then◌else◌, length, get_elem?, Bool-cases, All,
}
use recursive_functions.Compilation.Types.{
  TypePtr, TypeInfo, get_kind, is_arithmetic, get_original, Storage,
}
use recursive_functions.Compilation.Types.Storage.{key, IsInterned, get_emplace-Emplaced}
use recursive_functions.Compilation.Semantics.{
  Complaint, ◌>>◌, ◌>>=◌, ok, deref, Category, Conversion, is_tuple, rvalue, lvalue, Expr,
  convert_to_rvalue, as_initializer, BinaryOp, is_arithmetic_op, is_inequality_op, arithmetic_type,
  binary_type, Binary, visit_binary_operator, made_binary, >>=-eq-ok, visit_arguments, call_type,
  require, stored,
}

-- The types whose values are compared by `<` and the like.
pub data Numeric : TypeInfo → Type 0 where
  signed : (w : ℕ) → Numeric (TypeInfo.signed_int w)
  unsigned : (w : ℕ) → Numeric (TypeInfo.unsigned_int w)
  char : (w : ℕ) → Numeric (TypeInfo.char w)

-- `HasType op p q l r t`: over operands of the types l and r, stored at p and q, the operator has the
-- type t.
pub data HasType (op : BinaryOp) (p q : TypePtr) : TypeInfo → TypeInfo → TypeInfo → Type 0 where
  signed :
      (w : ℕ)
      → is_arithmetic_op op ≡ true
      → HasType op p q (TypeInfo.signed_int w) (TypeInfo.signed_int w) (TypeInfo.signed_int w)
  unsigned :
      (w : ℕ)
      → is_arithmetic_op op ≡ true
      → HasType op p q (TypeInfo.unsigned_int w) (TypeInfo.unsigned_int w) (TypeInfo.unsigned_int w)
  inequality :
      {l r : TypeInfo}
      → is_inequality_op op ≡ true
      → Numeric l
      → Numeric r
      → HasType op p q l r (TypeInfo.bool 8)
  equality :
      {l r : TypeInfo}
      → is_arithmetic_op op ≡ false
      → is_inequality_op op ≡ false
      → p ≡ q
      → HasType op p q l r (TypeInfo.bool 8)

is_arithmetic-Numeric : (t : TypeInfo) → is_arithmetic t ≡ true → Numeric t
unfolding is_arithmetic
is_arithmetic-Numeric (TypeInfo.signed_int w) h = signed w
is_arithmetic-Numeric (TypeInfo.unsigned_int w) h = unsigned w
is_arithmetic-Numeric (TypeInfo.char w) h = char w
is_arithmetic-Numeric _ h = absurd (cc)

Numeric-is_arithmetic : {t : TypeInfo} → Numeric t → is_arithmetic t ≡ true
unfolding is_arithmetic
Numeric-is_arithmetic (signed w) = refl
Numeric-is_arithmetic (unsigned w) = refl
Numeric-is_arithmetic (char w) = refl

disjoint_ops : (op : BinaryOp) → is_inequality_op op ≡ true → is_arithmetic_op op ≡ false
unfolding is_inequality_op is_arithmetic_op
disjoint_ops BinaryOp.plus h = absurd (cc)
disjoint_ops BinaryOp.minus h = absurd (cc)
disjoint_ops BinaryOp.multiply h = absurd (cc)
disjoint_ops BinaryOp.remainder h = absurd (cc)
disjoint_ops _ h = refl

-- The operand types of an arithmetic operator, and what it makes of them.
data Arithmetic : TypeInfo → TypeInfo → TypeInfo → Type 0 where
  signed :
      (w : ℕ) → Arithmetic (TypeInfo.signed_int w) (TypeInfo.signed_int w) (TypeInfo.signed_int w)
  unsigned :
      (w : ℕ)
      → Arithmetic (TypeInfo.unsigned_int w) (TypeInfo.unsigned_int w) (TypeInfo.unsigned_int w)

arithmetic_type_sound :
    (l r : TypeInfo) {t : TypeInfo} → arithmetic_type l r ≡ ok t → Arithmetic l r t
unfolding arithmetic_type
arithmetic_type_sound (TypeInfo.signed_int w) (TypeInfo.signed_int w') {t} h =
    subst (λ x. Arithmetic (TypeInfo.signed_int w) (TypeInfo.signed_int x) t) (ground arith)
      (subst (Arithmetic (TypeInfo.signed_int w) (TypeInfo.signed_int w)) (ground arith)
        (Arithmetic.signed w))
arithmetic_type_sound (TypeInfo.unsigned_int w) (TypeInfo.unsigned_int w') {t} h =
    subst (λ x. Arithmetic (TypeInfo.unsigned_int w) (TypeInfo.unsigned_int x) t) (ground arith)
      (subst (Arithmetic (TypeInfo.unsigned_int w) (TypeInfo.unsigned_int w)) (ground arith)
        (Arithmetic.unsigned w))
arithmetic_type_sound l r h = absurd (ground arith)

arithmetic_type_complete : {l r t : TypeInfo} → Arithmetic l r t → arithmetic_type l r ≡ ok t
unfolding arithmetic_type
arithmetic_type_complete (signed w) = ground arith
arithmetic_type_complete (unsigned w) = ground arith

Arithmetic-HasType :
    {op : BinaryOp} {p q : TypePtr} {l r t : TypeInfo}
    → is_arithmetic_op op ≡ true
    → Arithmetic l r t
    → HasType op p q l r t
Arithmetic-HasType h (signed w) = HasType.signed w h
Arithmetic-HasType h (unsigned w) = HasType.unsigned w h

compared :
    (l r t : TypeInfo)
    → (require (is_arithmetic l && is_arithmetic r) Complaint.incompatible_operands
        >> ok (TypeInfo.bool 8))
      ≡ ok t
    → Numeric l × Numeric r × (TypeInfo.bool 8 ≡ t)
compared l r t h = (
  is_arithmetic-Numeric l (ground (arith, h)),
  is_arithmetic-Numeric r (ground (arith, h)),
  ground (arith, h),
)

equal :
    (p q : TypePtr) (t : TypeInfo)
    → (require (p == q) Complaint.equality_types >> ok (TypeInfo.bool 8)) ≡ ok t
    → (p ≡ q) × (TypeInfo.bool 8 ≡ t)
equal p q t h = (ground (arith, h), ground (arith, h))

binary_type_sound :
    (op : BinaryOp) (p q : TypePtr) (l r : TypeInfo) {t : TypeInfo}
    → binary_type op p q l r ≡ ok t
    → HasType op p q l r t
unfolding binary_type
binary_type_sound op p q l r {t} h = elim (Bool-cases (is_arithmetic_op op)) [
  | inl a ↦ Arithmetic-HasType a (arithmetic_type_sound l r (ground (arith, a, h)))
  | inr a ↦ (elim (Bool-cases (is_inequality_op op)) [
    | inl i ↦
        let (nl, nr, e) = compared l r t (ground (arith, a, i, h)) in
        subst (HasType op p q l r) e (inequality i nl nr)
    | inr i ↦
        let (same, e) = equal p q t (ground (arith, a, i, h)) in
        subst (HasType op p q l r) e (equality a i same)
  ])
]

binary_type_complete :
    (op : BinaryOp) (p q : TypePtr) {l r t : TypeInfo}
    → HasType op p q l r t
    → binary_type op p q l r ≡ ok t
unfolding binary_type
binary_type_complete op p q (signed w a) = rw a (arithmetic_type_complete (Arithmetic.signed w))
binary_type_complete op p q (unsigned w a) = rw a (arithmetic_type_complete (Arithmetic.unsigned w))
binary_type_complete op p q (inequality i nl nr) =
    rw (disjoint_ops op i, i) (rw (Numeric-is_arithmetic nl, Numeric-is_arithmetic nr))
binary_type_complete op p q (equality a i e) = rw (a, i) (ground (arith, e))

-- The typing of a binary operator is exactly the rules of `HasType`.
pub binary_type_iff :
    (op : BinaryOp) (p q : TypePtr) (l r t : TypeInfo)
    → (binary_type op p q l r ≡ ok t) ↔ HasType op p q l r t
binary_type_iff op p q l r t = (binary_type_sound op p q l r, binary_type_complete op p q)

key-primitive :
    (t made : TypeInfo) {op : BinaryOp} {p q : TypePtr} {l r : TypeInfo}
    → HasType op p q l r made
    → key t ≡ key made
    → t ≡ made
unfolding key
key-primitive (TypeInfo.class n ms) _ (signed w a) e = absurd (cc)
key-primitive (TypeInfo.class n ms) _ (unsigned w a) e = absurd (cc)
key-primitive (TypeInfo.class n ms) _ (inequality i nl nr) e = absurd (cc)
key-primitive (TypeInfo.class n ms) _ (equality a i d) e = absurd (cc)
key-primitive _ _ (signed w a) e = e
key-primitive _ _ (unsigned w a) e = e
key-primitive _ _ (inequality i nl nr) e = e
key-primitive _ _ (equality a i d) e = e

convert_to_rvalue-rvalue : (e : Expr) → (convert_to_rvalue e).category ≡ rvalue
unfolding convert_to_rvalue
convert_to_rvalue-rvalue e = ground arith

deref-some :
    (storage : Storage) (p : TypePtr) {t : TypeInfo}
    → get_elem? storage p ≡ some t
    → deref storage p ≡ ok t
deref-some storage p e = rw (e, deref)

visit_binary_operator-step :
    (storage : Storage) (op : BinaryOp) (left right : Expr) (l r : TypeInfo)
    → get_elem? storage left.type ≡ some l
    → get_elem? storage right.type ≡ some r
    → visit_binary_operator storage op left right ≡ (
        binary_type op left.type right.type l r >>= λ made.
        ok (made_binary storage left right made))
unfolding visit_binary_operator
visit_binary_operator-step storage op left right l r el er =
    rw (deref-some storage left.type el, deref-some storage right.type er)

-- What a visited binary operator is: both operands and the node are rvalues, the node points to its
-- type, and the storage is interned and keeps every pointer.
abbrev pub IsVisited : Storage → TypeInfo → Binary → Type 0
IsVisited storage made b =
    (b.left.category ≡ rvalue)
    × (b.right.category ≡ rvalue)
    × (b.node.category ≡ rvalue)
    × (get_elem? b.storage b.node.type ≡ some made)
    × IsInterned b.storage
    × ((i : ℕ) (t : TypeInfo) → get_elem? storage i ≡ some t → get_elem? b.storage i ≡ some t)

-- On an interned storage with the types of both operands, the visitor of a binary operator succeeds
-- exactly on the operand types that have a rule, and then the node gets the type of the rule.
pub visit_binary_operator_typing :
    (storage : Storage) (op : BinaryOp) (left right : Expr) (l r : TypeInfo)
    → IsInterned storage
    → get_elem? storage left.type ≡ some l
    → get_elem? storage right.type ≡ some r
    → ((made : TypeInfo)
        → HasType op left.type right.type l r made
        → (b : Binary) × (visit_binary_operator storage op left right ≡ ok b)
          × IsVisited storage made b)
      × ((b : Binary)
          → visit_binary_operator storage op left right ≡ ok b
          → (made : TypeInfo) × HasType op left.type right.type l r made)
unfolding visit_binary_operator
visit_binary_operator_typing storage op left right l r v el er = (
  (λ made typing.
      let (v', keep, (t, et, same)) = get_emplace-Emplaced storage made v in
      (
        made_binary storage left right made,
        visit_binary_operator-step storage op left right l r el er
            ∙ rw (binary_type_complete op left.type right.type typing),
        (
          convert_to_rvalue-rvalue left,
          convert_to_rvalue-rvalue right,
          refl,
          et ∙ ap some (key-primitive t made typing same),
          v',
          keep,
        ),
      )),
  (λ b h.
      let step = visit_binary_operator-step storage op left right l r el er in
      let (made, e, _) = >>=-eq-ok (binary_type op left.type right.type l r) _ (sym step ∙ h) in
      (made, binary_type_sound op left.type right.type l r e)),
)

-- An argument whose type and whose original type are in the storage.
abbrev pub Stored : Storage → Expr → Type 0
Stored storage e =
    (t o : TypeInfo) × (get_elem? storage e.type ≡ some t)
    × (get_elem? storage (get_original e.type t) ≡ some o)

abbrev pub types_of : List Expr → List TypePtr
types_of [] = []
types_of (e ∷ es) = e.type ∷ types_of es

abbrev pub IsRvalue : Expr → Type 0
IsRvalue e = e.category ≡ rvalue

convert_to_rvalue-type : (e : Expr) → (convert_to_rvalue e).type ≡ e.type
unfolding convert_to_rvalue
convert_to_rvalue-type e = ground arith

-- The argument of a call after its conversion, where its original type is o.
initialized : TypeInfo → Expr → Expr
initialized o e =
    if is_tuple (get_kind o)
    then record e { category = rvalue; conversions = Conversion.tuple_copy ∷ e.conversions }
    else convert_to_rvalue e

initialized-IsRvalue : (o : TypeInfo) (e : Expr) → IsRvalue (initialized o e)
unfolding initialized
initialized-IsRvalue o e = elim (Bool-cases (is_tuple (get_kind o))) [
  | inl b ↦ rw b
  | inr b ↦ rw b (convert_to_rvalue-rvalue e)
]

initialized-type : (o : TypeInfo) (e : Expr) → (initialized o e).type ≡ e.type
unfolding initialized
initialized-type o e = elim (Bool-cases (is_tuple (get_kind o))) [
  | inl b ↦ rw b
  | inr b ↦ rw b (convert_to_rvalue-type e)
]

category_cases : (c : Category) → (c ≡ rvalue) ⊎ (c ≡ lvalue)
category_cases rvalue = inl refl
category_cases lvalue = inr refl

as_initializer-total :
    (storage : Storage) (e : Expr)
    → Stored storage e
    → (e' : Expr) × (as_initializer storage e ≡ ok e') × IsRvalue e' × (e'.type ≡ e.type)
unfolding as_initializer initialized
as_initializer-total storage e (t, o, et, eo) = elim (category_cases e.category) [
  | inl c ↦ (e, rw c, c, refl)
  | inr c ↦ (
    initialized o e,
    rw c (rw (deref-some storage e.type et, deref-some storage (get_original e.type t) eo)),
    initialized-IsRvalue o e,
    initialized-type o e,
  )
]

cons :
    {x y : TypePtr} {xs ys : List TypePtr}
    → x ≡ y
    → xs ≡ ys
    → ◌≡◌ {A = List TypePtr} (x ∷ xs) (y ∷ ys)
cons e es = rw (e, es)

require_test : (a b : ℕ) (c : Complaint) {u : Unit {0}} → require (a == b) c ≡ ok u → a ≡ b
require_test a b c h = ground (arith, h)

visit_arguments-total :
    (storage : Storage) (es : List Expr)
    → All (Stored storage) es
    → (es' : List Expr) × (visit_arguments storage (types_of es) es ≡ ok es')
      × All IsRvalue es'
      × (types_of es' ≡ types_of es)
unfolding visit_arguments
visit_arguments-total storage [] a = ([], refl, tt, refl)
visit_arguments-total storage (e ∷ es) (h, a) =
    let (e', q, c, t) = as_initializer-total storage e h in
    let (es', qs, cs, ts) = visit_arguments-total storage es a in
    (e' ∷ es', rw (visit_arguments, ==_refl e.type) (rw q (rw qs)), (c, cs), cons t ts)

visit_arguments_sound :
    (storage : Storage) (ps : List TypePtr) (es : List Expr) {es' : List Expr}
    → length ps ≡ length es
    → visit_arguments storage ps es ≡ ok es'
    → ps ≡ types_of es
unfolding visit_arguments
visit_arguments_sound storage [] [] n h = refl
visit_arguments_sound storage [] (e ∷ es) n h = absurd (ground arith)
visit_arguments_sound storage (p ∷ ps) [] n h = absurd (cc)
visit_arguments_sound storage (p ∷ ps) (e ∷ es) n h =
    let (_, same, h1) = >>=-eq-ok (require (p == e.type) Complaint.argument_type) _ h in
    let (e', _, h2) = >>=-eq-ok (as_initializer storage e) _ h1 in
    let (rest, h3, _) = >>=-eq-ok (visit_arguments storage ps es) _ h2 in
    cons (require_test p e.type _ same) (visit_arguments_sound storage ps es (ground (arith, n)) h3)

length-types_of : (es : List Expr) → length (types_of es) ≡ length es
length-types_of [] = refl
length-types_of (e ∷ es) = ap suc (length-types_of es)

-- With the types of the arguments in the storage, a call of a function succeeds exactly when the
-- types of the arguments are the parameters; the arguments are then converted to rvalues of the same
-- types, and the node is an rvalue of the return type.
pub call_type_typing :
    (storage : Storage) (parameters : List TypePtr) (return_type : TypePtr) (arguments : List Expr)
    → All (Stored storage) arguments
    → (parameters ≡ types_of arguments
        → (es : List Expr) × (call_type storage (TypeInfo.function parameters return_type) arguments
            ≡ ok (es, stored return_type))
          × All IsRvalue es
          × (types_of es ≡ types_of arguments))
      × ((r : List Expr × Expr)
          → call_type storage (TypeInfo.function parameters return_type) arguments ≡ ok r
          → parameters ≡ types_of arguments)
unfolding call_type
call_type_typing storage parameters return_type arguments a = (
  (λ same.
      let (es, q, c, t) = visit_arguments-total storage arguments a in
      (es, rw same (rw (length-types_of arguments, ==_refl (length arguments)) (rw q)), c, t)),
  (λ r h.
      let (_, n, h1) = >>=-eq-ok (require (length parameters == length arguments) _) _ h in
      let (es, q, _) = >>=-eq-ok (visit_arguments storage parameters arguments) _ h1 in
      visit_arguments_sound storage parameters arguments
        (require_test (length parameters) (length arguments) _ n) q),
)
