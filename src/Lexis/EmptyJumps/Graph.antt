-- ===== src/Lexis/EmptyJumps/Graph.antt =====
-- The automaton of a regular expression is a graph: the cases of the visitor.
use recursive_functions.Prelude.{
  ℕ, suc, ◌≡◌, ◌<◌, ◌⊎◌, inl, List, [], ◌∷◌, ◌++◌, true, arith, refl, ap, ◌∙◌, sym, subst, contains,
  Distinct,
}
use recursive_functions.Lexis.Regex.{
  RegexNode, symbol_node, concatenation_node, or_node, star_node, plus_node,
}
use recursive_functions.Lexis.Jump.{characters_count}
use recursive_functions.Lexis.Nfa.{
  NfaNode, fresh, visit, redirect, start_address, from_regex, symbol_jumps,
}
use recursive_functions.Lexis.Nfa.Run.{HasJump, Jumps}
use recursive_functions.Lexis.Nfa.Nodes.{
  Jumps-append, Jumps-redirect, HasJump-append, HasJump-symbol_jumps,
}
use recursive_functions.Lexis.Nfa.Built.{start_address-redirect}
use recursive_functions.Lexis.EmptyJumps.Lookup.{addresses}
use recursive_functions.Lexis.EmptyJumps.Closing.{IsGraph}
use recursive_functions.Lexis.EmptyJumps.Placed.{
  IsPlaced, IsJoined-append, addresses-append, addresses-redirect, contains-start, redirected_start,
  cons-IsPlaced,
}

-- A start node stands in its automaton, whatever it is called.
contains-at :
    (nodes : List NfaNode) (y : ℕ)
    → contains (addresses nodes) (start_address nodes) ≡ true
    → y ≡ start_address nodes
    → contains (addresses nodes) y ≡ true
contains-at nodes y h q = ap (contains (addresses nodes)) q ∙ h

concatenation-IsPlaced :
    (xs ys : List NfaNode) (a n n₁ n₂ : ℕ)
    → a < n
    → IsPlaced xs a (suc n) n₁
    → IsPlaced ys n n₁ n₂
    → IsPlaced (redirect (start_address ys) xs ++ ys) a n n₂
concatenation-IsPlaced xs ys a n n₁ n₂ h l r =
    let t = start_address ys in
    let e =
      addresses-append (redirect t xs) ys
      ∙ ap (λ (z : List ℕ). z ++ addresses ys) (addresses-redirect t xs) in
    let in_whole = λ (x : ℕ). ap (λ (z : List ℕ). contains z x) e in
    let j =
      IsJoined-append xs ys l.distinct r.distinct
        (λ x p q. let i = l.only x p in let k = r.only x q in let g = l.grows in ground arith) in
    let s =
      contains-start (redirect t xs) ys (redirected_start t xs l.start_at)
      ∙ start_address-redirect t xs in
    record {
      grows = let g = l.grows in let g' = r.grows in omega arith;
      distinct = subst Distinct (sym e) j.distinct;
      only = λ x p.
          let m = j.members x in
          let w = in_whole x in
          let i = l.only x in
          let k = r.only x in let g = l.grows in let g' = r.grows in ground arith;
      start_at =
          subst (λ x. contains (addresses (redirect t xs ++ ys)) x ≡ true) (sym s)
            (in_whole (start_address xs) ∙ (j.members (start_address xs)).1 (inl l.start_at));
      target_at = λ x k y p.
          let c = Jumps-append (redirect t xs) ys x k y in
          let d = Jumps-redirect t xs x k y in
          let m = j.members y in
          let w = in_whole y in
          let i = l.target_at x k y in
          let i' = r.target_at x k y in let same = contains-at ys y r.start_at in ground arith;
    }

choice-IsPlaced :
    (front : NfaNode) (xs ys : List NfaNode) (a n n₁ n₂ : ℕ)
    → a < n
    → IsPlaced xs a (suc n) n₁
    → IsPlaced ys n n₁ n₂
    → front.address ≡ n₂
    → ((s y : ℕ) → HasJump front.jumps s y → (y ≡ start_address xs) ⊎ (y ≡ start_address ys))
    → IsPlaced (front ∷ ys ++ xs) a n (suc n₂)
unfolding addresses
choice-IsPlaced front xs ys a n n₁ n₂ h l r e f =
    let in_whole = λ (x : ℕ). ap (λ (z : List ℕ). contains z x) (addresses-append ys xs) in
    let j =
      IsJoined-append ys xs r.distinct l.distinct
        (λ x p q. let i = l.only x q in let k = r.only x p in let g = l.grows in ground arith) in
    cons-IsPlaced front (ys ++ xs) n n₂ a (subst Distinct (sym (addresses-append ys xs)) j.distinct)
      h (let g = l.grows in let g' = r.grows in omega arith) e
      (λ x p.
        let m = j.members x in
        let w = in_whole x in
        let i = l.only x in let k = r.only x in let g = l.grows in let g' = r.grows in ground arith)
      (λ x s y p.
        let c = Jumps-append ys xs x s y in
        let m = j.members y in
        let w = in_whole y in
        let i = l.target_at x s y in
        let i' = r.target_at x s y in
        let to = f s y in
        let same = contains-at ys y r.start_at in
        let same' = contains-at xs y l.start_at in ground arith)

star-IsPlaced :
    (front : NfaNode) (xs : List NfaNode) (a n n₁ : ℕ)
    → a < n
    → IsPlaced xs a n n₁
    → front.address ≡ n₁
    → ((s y : ℕ) → HasJump front.jumps s y → y ≡ start_address xs)
    → IsPlaced (front ∷ redirect n₁ xs) a n (suc n₁)
unfolding addresses
star-IsPlaced front xs a n n₁ h l e f =
    let same_all = addresses-redirect n₁ xs in
    let in_whole = λ (x : ℕ). ap (λ (z : List ℕ). contains z x) same_all in
    cons-IsPlaced front (redirect n₁ xs) n n₁ a (subst Distinct (sym same_all) l.distinct) h l.grows
      e (λ x p. let w = in_whole x in let i = l.only x in ground arith)
      (λ x s y p.
        let d = Jumps-redirect n₁ xs x s y in
        let w = in_whole y in
        let i = l.target_at x s y in
        let to = f s y in let same = contains-at xs y l.start_at in ground arith)

plus-IsPlaced :
    (new_start bridge : NfaNode) (xs ys : List NfaNode) (a n n₁ n₂ : ℕ)
    → a < n
    → IsPlaced xs a (suc n) n₁
    → IsPlaced ys n n₁ n₂
    → new_start.address ≡ suc n₂
    → bridge.address ≡ n₂
    → ((s y : ℕ) → HasJump new_start.jumps s y → y ≡ start_address ys)
    → ((s y : ℕ) → HasJump bridge.jumps s y → y ≡ start_address xs)
    → IsPlaced (new_start ∷ bridge ∷ redirect n₂ ys ++ redirect n₂ xs) a n (suc (suc n₂))
unfolding addresses
plus-IsPlaced new_start bridge xs ys a n n₁ n₂ h l r e e' f f' =
    let all_parts =
      addresses-append (redirect n₂ ys) (redirect n₂ xs)
      ∙ ap (λ (z : List ℕ). z ++ addresses (redirect n₂ xs)) (addresses-redirect n₂ ys)
      ∙ ap (λ (z : List ℕ). addresses ys ++ z) (addresses-redirect n₂ xs) in
    let in_whole = λ (x : ℕ). ap (λ (z : List ℕ). contains z x) all_parts in
    let j =
      IsJoined-append ys xs r.distinct l.distinct
        (λ x p q. let i = l.only x q in let k = r.only x p in let g = l.grows in ground arith) in
    let target : (x s y : ℕ)
        → Jumps (bridge ∷ redirect n₂ ys ++ redirect n₂ xs) x s y
        → contains (addresses (bridge ∷ redirect n₂ ys ++ redirect n₂ xs)) y ≡ true =
      λ x s y p.
        let c = Jumps-append (redirect n₂ ys) (redirect n₂ xs) x s y in
        let d = Jumps-redirect n₂ ys x s y in
        let d' = Jumps-redirect n₂ xs x s y in
        let m = j.members y in
        let w = in_whole y in
        let i = l.target_at x s y in
        let i' = r.target_at x s y in
        let to = f' s y in let same = contains-at xs y l.start_at in ground arith in
    let second =
      cons-IsPlaced bridge (redirect n₂ ys ++ redirect n₂ xs) n n₂ a
        (subst Distinct (sym all_parts) j.distinct) h
        (let g = l.grows in let g' = r.grows in omega arith) e'
        (λ x p.
          let m = j.members x in
          let w = in_whole x in
          let i = l.only x in
          let k = r.only x in let g = l.grows in let g' = r.grows in ground arith)
        target in
    cons-IsPlaced new_start (bridge ∷ redirect n₂ ys ++ redirect n₂ xs) n (suc n₂) a second.distinct
      h second.grows e second.only
      (λ x s y p.
        let i = target x s y in
        let to = f s y in
        let m = j.members y in
        let w = in_whole y in let same = contains-at ys y r.start_at in ground arith)

visit-IsPlaced :
    (root : RegexNode) (a n : ℕ)
    → a < n
    → let after = visit root (fresh a) n in IsPlaced after.0 a n after.1
unfolding visit addresses
visit-IsPlaced (symbol_node match) a n h = record {
  grows = omega arith;
  distinct = (ground arith, (refl, tt));
  only = λ x k. ground arith;
  start_at = ground arith;
  target_at = λ x s y k.
      let c = HasJump-append (symbol_jumps characters_count 0 match n) [] s y in
      let j = HasJump-symbol_jumps characters_count 0 match n s y in ground arith;
}
visit-IsPlaced (concatenation_node left right) a n h =
    let l = visit-IsPlaced left a (suc n) (omega (arith, h)) in
    let r = visit-IsPlaced right n _ (omega (arith, l.grows)) in
    concatenation-IsPlaced _ _ a n _ _ h l r
visit-IsPlaced (or_node left right) a n h =
    let l = visit-IsPlaced left a (suc n) (omega (arith, h)) in
    let r = visit-IsPlaced right n _ (omega (arith, l.grows)) in
    choice-IsPlaced _ _ _ a n _ _ h l r refl (λ s y k. ground arith)
visit-IsPlaced (star_node child) a n h =
    star-IsPlaced _ _ a n _ h (visit-IsPlaced child a n h) refl (λ s y k. ground arith)
visit-IsPlaced (plus_node child) a n h =
    let l = visit-IsPlaced child a (suc n) (omega (arith, h)) in
    let r = visit-IsPlaced child n _ (omega (arith, l.grows)) in
    plus-IsPlaced _ _ _ _ a n _ _ h l r refl refl (λ s y k. ground arith) (λ s y k. ground arith)

pub from_regex-IsGraph :
    (root : RegexNode)
    → IsGraph (from_regex root)
      × (contains (addresses (from_regex root)) (start_address (from_regex root)) ≡ true)
unfolding from_regex
from_regex-IsGraph root =
    let p = visit-IsPlaced root 0 1 (omega arith) in
    (record { distinct = p.distinct; inside = p.target_at }, p.start_at)
