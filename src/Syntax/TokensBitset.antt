-- ===== src/Syntax/TokensBitset.antt =====
-- src/syntax/lr/TokensBitset.h: a set of kinds of tokens, as the list of its bits. `none` is the
-- exception of `test`.
use recursive_functions.Prelude.{
  ℕ, ◌<◌, ◌≡◌, ap, sym, ◌∙◌, inl, inr, Bool, true, false, not, ◌&&◌, ◌||◌, List, Option, some,
  arith, ◌==◌, ==_iff, if◌then◌else◌, length, get_elem?, get_elem?-lt, set, length-set,
  get_elem?-set_self, get_elem?-set_ne, replicate, zip_with, get_elem?-zip_with, length-zip_with,
  Bool-cases,
}
use recursive_functions.Lexis.Token.{
  TokenType, end, token_index, token_eq, all_tokens, get_elem?-token_index,
}

abbrev pub TokensBitset : Type 0
TokensBitset = List Bool

abbrev pub no_tokens : TokensBitset
no_tokens = replicate (length all_tokens) false

unfoldable pub add_token : TokensBitset → TokenType → TokensBitset
add_token b t = set b (token_index t) true

unfoldable pub remove_token : TokensBitset → TokenType → TokensBitset
remove_token b t = set b (token_index t) false

unfoldable pub only_end : TokensBitset
unfolding add_token
only_end = add_token no_tokens end

unfoldable pub add_all : TokensBitset → TokensBitset → TokensBitset
add_all b other = zip_with (λ x y. x || y) b other

unfoldable pub remove_all : TokensBitset → TokensBitset → TokensBitset
remove_all b other = zip_with (λ x y. x && not y) b other

unfoldable pub contains : TokensBitset → TokenType → Option Bool
contains b t = get_elem? b (token_index t)

-- A bit for each kind of token.
abbrev pub IsComplete : TokensBitset → Type 0
IsComplete b = length b ≡ length all_tokens

token_index-lt : (t : TokenType) → token_index t < length all_tokens
token_index-lt t = get_elem?-lt all_tokens (token_index t) (get_elem?-token_index t)

get_elem?-set :
    (b : TokensBitset) (i j : ℕ) (v : Bool)
    → i < length b
    → get_elem? (set b i v) j ≡ (if i == j then some v else get_elem? b j)
get_elem?-set b i j v h = elim (Bool-cases (i == j)) [
  | inl e ↦
      let same : i ≡ j = (==_iff i j).0 e in
      rw e (ap (get_elem? (set b i v)) (sym same) ∙ get_elem?-set_self b i v h)
  | inr n ↦ rw n (get_elem?-set_ne b i j v (ground (arith, n)))
]

-- One token added or removed: the set stays complete, and it has the other tokens as before.
pub contains-add_token :
    (b : TokensBitset) (t s : TokenType)
    → IsComplete b
    → IsComplete (add_token b t)
      × IsComplete (remove_token b t)
      × (contains (add_token b t) s ≡ (if token_eq t s then some true else contains b s))
      × (contains (remove_token b t) s ≡ (if token_eq t s then some false else contains b s))
unfolding add_token remove_token contains
contains-add_token b t s full =
    let fits : token_index t < length b = omega (arith, token_index-lt t, full) in
    (
      length-set b (token_index t) true ∙ full,
      length-set b (token_index t) false ∙ full,
      get_elem?-set b (token_index t) (token_index s) true fits,
      get_elem?-set b (token_index t) (token_index s) false fits,
    )

-- The union and the difference of two complete sets are complete, and have the tokens that they should.
pub contains-add_all :
    (b other : TokensBitset) (t : TokenType) (x y : Bool)
    → IsComplete b
    → IsComplete other
    → contains b t ≡ some x
    → contains other t ≡ some y
    → IsComplete (add_all b other)
      × IsComplete (remove_all b other)
      × (contains (add_all b other) t ≡ some (x || y))
      × (contains (remove_all b other) t ≡ some (x && not y))
unfolding add_all remove_all contains
contains-add_all b other t x y full full' e d = (
  length-zip_with (λ x y. x || y) b other (full ∙ sym full') ∙ full,
  length-zip_with (λ x y. x && not y) b other (full ∙ sym full') ∙ full,
  get_elem?-zip_with (λ x y. x || y) b other (token_index t) e d,
  get_elem?-zip_with (λ x y. x && not y) b other (token_index t) e d,
)
