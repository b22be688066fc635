-- ===== src/Compilation/Semantics.antt =====
-- src/compilation/semantics: the visitors of one expression, with the types of its operands given.
-- A `scold_user` is an error value; `fault` is an access that the source does not check.
pub mod Operators
pub mod Members
use recursive_functions.Prelude.{
  ℕ, suc, ◌≡◌, refl, Bool, true, false, List, [], ◌∷◌, Option, none, some, not, ◌&&◌, ◌||◌, ◌==◌,
  ltb, if◌then◌else◌, length, get_elem?,
}
use recursive_functions.Compilation.Types.{
  TypePtr, StringId, TypeInfo, Kind, get_kind, is_primitive, is_arithmetic, get_original, Storage,
  get_emplace,
}

pub data Complaint : Type 0 where
  arithmetic_not_primitive arithmetic_width arithmetic_incompatible : Complaint
  incompatible_operands equality_types not_bool unary_not_implemented : Complaint
  left_not_lvalue not_callable arguments_count argument_type : Complaint
  tuple_index_range not_class qualified_member no_member : Complaint

pub data Result {ℓ} (A : Type ℓ) : Type ℓ where
  ok : A → Result A
  scold : Complaint → Result A
  fault : Result A

-- An error or a fault ends the analysis.
infixl 5 ◌>>◌ ◌>>=◌
abbrev pub ◌>>=◌ {ℓ κ} : {A : Type ℓ} {B : Type κ} → Result A → (A → Result B) → Result B
fault >>= f = fault
scold c >>= f = scold c
ok a >>= f = f a

abbrev pub ◌>>◌ {κ} : {C : Type κ} (check : Result (Unit {0})) (rest : Result C) → Result C
check >> rest = check >>= λ _. rest

pub >>=-eq-ok {ℓ κ} :
    {A : Type ℓ} {B : Type κ} {b : B} (m : Result A) (f : A → Result B)
    → (m >>= f) ≡ ok b
    → (a : A) × (m ≡ ok a) × (f a ≡ ok b)
>>=-eq-ok (ok a) f h = (a, refl, h)
>>=-eq-ok (scold c) f h = absurd (cc)
>>=-eq-ok fault f h = absurd (cc)

abbrev pub require : Bool → Complaint → Result (Unit {0})
require true c = ok tt
require false c = scold c

-- `ValueCategory` of an analysed expression, and the conversions put round it.
pub data Category : Type 0 where
  rvalue lvalue : Category

pub data Conversion : Type 0 where
  lvalue_to_rvalue tuple_copy : Conversion

pub record Expr : Type 0 where
  pub type : TypePtr
  pub category : Category
  pub conversions : List Conversion

-- Following a `Type*`.
abbrev pub deref : Storage → TypePtr → Result TypeInfo
deref storage p = elim (get_elem? storage p) [ none ↦ fault | some t ↦ ok t ]

unfoldable pub convert_to_rvalue : Expr → Expr
convert_to_rvalue e = elim e.category [
  | rvalue ↦ e
  | lvalue ↦ record e { category = rvalue; conversions = lvalue_to_rvalue ∷ e.conversions }
]

abbrev pub is_tuple : Kind → Bool
is_tuple Kind.tuple = true
is_tuple _ = false

unfoldable pub as_initializer : Storage → Expr → Result Expr
unfolding convert_to_rvalue get_original get_kind
as_initializer storage e = elim e.category [
  | rvalue ↦ ok e
  | lvalue ↦ do
    t ← deref storage e.type
    original ← deref storage (get_original e.type t)
    ok (
        if is_tuple (get_kind original)
        then record e { category = rvalue; conversions = tuple_copy ∷ e.conversions }
        else convert_to_rvalue e)
]

pub data BinaryOp : Type 0 where
  plus minus multiply remainder : BinaryOp
  less greater less_eq greater_eq : BinaryOp
  equalequal notequal : BinaryOp

unfoldable pub is_arithmetic_op : BinaryOp → Bool
is_arithmetic_op plus = true
is_arithmetic_op minus = true
is_arithmetic_op multiply = true
is_arithmetic_op remainder = true
is_arithmetic_op _ = false

unfoldable pub is_inequality_op : BinaryOp → Bool
is_inequality_op less = true
is_inequality_op less_eq = true
is_inequality_op greater = true
is_inequality_op greater_eq = true
is_inequality_op _ = false

-- `static_cast<PrimitiveType*>(type)->width`, which is a fault at any other type.
abbrev pub width_of : TypeInfo → Result ℕ
width_of (TypeInfo.signed_int w) = ok w
width_of (TypeInfo.unsigned_int w) = ok w
width_of (TypeInfo.bool w) = ok w
width_of (TypeInfo.char w) = ok w
width_of _ = fault

-- The type of an arithmetic operator over operands of one width.
abbrev pub arithmetic_result : Kind → Kind → ℕ → Result TypeInfo
arithmetic_result Kind.signed_int Kind.signed_int w = ok (TypeInfo.signed_int w)
arithmetic_result Kind.unsigned_int Kind.unsigned_int w = ok (TypeInfo.unsigned_int w)
arithmetic_result _ _ w = scold arithmetic_incompatible

-- The type that is made for the node, before it is stored.
unfoldable pub arithmetic_type : TypeInfo → TypeInfo → Result TypeInfo
unfolding is_primitive get_kind
arithmetic_type left right = do
  require (is_primitive left && is_primitive right) arithmetic_not_primitive
  left_width ← width_of left
  right_width ← width_of right
  require (left_width == right_width) arithmetic_width
  arithmetic_result (get_kind left) (get_kind right) left_width

unfoldable pub binary_type : BinaryOp → TypePtr → TypePtr → TypeInfo → TypeInfo → Result TypeInfo
unfolding is_arithmetic_op is_inequality_op arithmetic_type is_arithmetic
binary_type op p q left right =
    if is_arithmetic_op op
    then arithmetic_type left right
    else if is_inequality_op op
    then (do
      require (is_arithmetic left && is_arithmetic right) incompatible_operands
      ok (TypeInfo.bool 8))
    else (do require (p == q) equality_types; ok (TypeInfo.bool 8))

pub record Binary : Type 0 where
  pub left : Expr
  pub right : Expr
  pub node : Expr
  pub storage : Storage

abbrev pub stored : TypePtr → Expr
stored p = record { type = p; category = rvalue; conversions = [] }

-- The end of the visitor: the operands are converted, and the type is stored.
abbrev pub made_binary : Storage → Expr → Expr → TypeInfo → Binary
made_binary storage left right made = record {
  left = convert_to_rvalue left;
  right = convert_to_rvalue right;
  node = stored (get_emplace storage made).0;
  storage = (get_emplace storage made).1;
}

unfoldable pub visit_binary_operator : Storage → BinaryOp → Expr → Expr → Result Binary
unfolding convert_to_rvalue binary_type get_emplace
visit_binary_operator storage op left right = do
  left_type ← deref storage left.type
  right_type ← deref storage right.type
  made ← binary_type op left.type right.type left_type right_type
  ok (made_binary storage left right made)

pub data UnaryOp : Type 0 where
  plus minus not_op preincrement predecrement : UnaryOp

abbrev pub is_bool : Kind → Bool
is_bool Kind.bool = true
is_bool _ = false

-- The operand, the node and the storage. Every operator but `!` ends in `not_implemented`.
unfoldable pub visit_unary_operator : Storage → UnaryOp → Expr → Result (Expr × Expr × Storage)
unfolding convert_to_rvalue get_emplace get_kind
visit_unary_operator storage not_op value = do
  t ← deref storage value.type
  require (is_bool (get_kind t)) not_bool
  ok (
    convert_to_rvalue value,
    stored (get_emplace storage (TypeInfo.bool 8)).0,
    (get_emplace storage (TypeInfo.bool 8)).1,
  )
visit_unary_operator storage _ value = scold unary_not_implemented

-- The condition of `traverse_if_statement`.
unfoldable pub check_condition : Storage → Expr → Result (Unit {0})
unfolding get_kind
check_condition storage e = do t ← deref storage e.type; require (is_bool (get_kind t)) not_bool

abbrev pub is_lvalue : Category → Bool
is_lvalue lvalue = true
is_lvalue rvalue = false

-- `visit_assignment_statement`: the right operand afterwards.
unfoldable pub visit_assignment : Expr → Expr → Result Expr
unfolding convert_to_rvalue
visit_assignment left right = do
  require (is_lvalue left.category) left_not_lvalue
  ok (convert_to_rvalue right)

-- The loop over the arguments of a call.
unfoldable pub visit_arguments : Storage → List TypePtr → List Expr → Result (List Expr)
unfolding as_initializer
visit_arguments storage [] arguments = ok []
visit_arguments storage (p ∷ parameters) [] = fault
visit_arguments storage (p ∷ parameters) (e ∷ arguments) = do
  require (p == e.type) argument_type
  e' ← as_initializer storage e
  rest ← visit_arguments storage parameters arguments
  ok (e' ∷ rest)

-- `visit_call_expression`, at the callee's type.
unfoldable pub call_type : Storage → TypeInfo → List Expr → Result (List Expr × Expr)
unfolding visit_arguments
call_type storage (TypeInfo.function parameters return_type) arguments = do
  require (length parameters == length arguments) arguments_count
  converted ← visit_arguments storage parameters arguments
  ok (converted, stored return_type)
call_type storage _ arguments = scold not_callable

unfoldable pub visit_call : Storage → Expr → List Expr → Result (List Expr × Expr)
unfolding call_type
visit_call storage callee arguments = do
  t ← deref storage callee.type
  call_type storage t arguments

-- `visit_tuple_index_expression`. The cast to a tuple is not checked: at any other type it is a fault.
abbrev pub tuple_element : TypeInfo → ℕ → Result TypePtr
tuple_element (TypeInfo.tuple elements) index = elim (get_elem? elements index) [
  | none ↦ scold tuple_index_range
  | some p ↦ ok p
]
tuple_element _ index = fault

unfoldable pub visit_tuple_index : Storage → Expr → ℕ → Result Expr
visit_tuple_index storage left index = do
  t ← deref storage left.type
  p ← tuple_element t index
  ok (record { type = p; category = left.category; conversions = [] })

-- `get_member_index`, from index i on.
unfoldable pub get_member_index : List (StringId × TypePtr) → StringId → ℕ → Option ℕ
get_member_index [] member i = none
get_member_index ((name, t) ∷ members) member i =
    if name == member then some i else get_member_index members member (suc i)

abbrev pub is_class : Kind → Bool
is_class Kind.class = true
is_class _ = false

abbrev pub last : List StringId → Result StringId
last [] = fault
last (x ∷ []) = ok x
last (x ∷ y ∷ xs) = last (y ∷ xs)

-- The members behind the unchecked cast to a class.
abbrev pub members_of : TypeInfo → Result (List (StringId × TypePtr))
members_of (TypeInfo.class name members) = ok members
members_of _ = fault

abbrev pub found_member : List (StringId × TypePtr) → Option ℕ → Result (ℕ × TypePtr)
found_member members none = scold no_member
found_member members (some i) = elim (get_elem? members i) [
  | none ↦ fault
  | some (name, t) ↦ ok (i, t)
]

-- `visit_member_expression`: the index of the member, and the node. The kind is tested behind an
-- alias, and the cast is made from the type itself.
unfoldable pub visit_member : Storage → Expr → List StringId → Result (ℕ × Expr)
unfolding get_member_index get_kind get_original
visit_member storage left parts = do
  t ← deref storage left.type
  resolved ← deref storage (get_original left.type t)
  require (is_class (get_kind resolved)) not_class
  require (not (ltb 1 (length parts))) qualified_member
  name ← last parts
  members ← members_of t
  (i, p) ← found_member members (get_member_index members name 0)
  ok (i, record { type = p; category = left.category; conversions = [] })
