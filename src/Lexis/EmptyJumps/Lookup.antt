-- ===== src/Lexis/EmptyJumps/Lookup.antt =====
-- The jumps of the node at an address are those of the automaton, where no two nodes have one address.
use recursive_functions.Prelude.{
  ℕ, ◌≡◌, ◌↔◌, inl, inr, List, [], ◌∷◌, true, false, Bool-cases, ◌==◌, ==_iff, arith, contains,
  Distinct, ap, ◌∙◌, sym, length, refl, suc,
}
use recursive_functions.Lexis.Nfa.{NfaNode}
use recursive_functions.Lexis.Nfa.Run.{HasJump, Jumps, Final}
use recursive_functions.Lexis.EmptyJumps.{equal_range, node_jumps, node_is_final}

-- The addresses of the nodes.
unfoldable pub addresses : List NfaNode → List ℕ
addresses [] = []
addresses (node ∷ nodes) = node.address ∷ addresses nodes

pub length-addresses : (nodes : List NfaNode) → length (addresses nodes) ≡ length nodes
unfolding addresses
length-addresses [] = refl
length-addresses (node ∷ nodes) = ap suc (length-addresses nodes)

pub contains-equal_range :
    (s : ℕ) (jumps : List (ℕ × ℕ)) (b : ℕ)
    → (contains (equal_range s jumps) b ≡ true) ↔ HasJump jumps s b
unfolding equal_range
contains-equal_range s [] b = ground arith
contains-equal_range s (jump ∷ jumps) b =
    let r = contains-equal_range s jumps b in
    elim (Bool-cases (jump.0 == s)) [
      | inl e ↦ rw (e) (ground arith)
      | inr e ↦ rw (e) (ground arith)
    ]

pub Jumps-address :
    (nodes : List NfaNode) (a s b : ℕ) → Jumps nodes a s b → contains (addresses nodes) a ≡ true
unfolding addresses
Jumps-address [] a s b h = elim h [ ]
Jumps-address (node ∷ nodes) a s b h = let r = Jumps-address nodes a s b in ground arith

pub Final-address :
    (nodes : List NfaNode) (a : ℕ) → Final nodes a → contains (addresses nodes) a ≡ true
unfolding addresses
Final-address [] a h = elim h [ ]
Final-address (node ∷ nodes) a h = let r = Final-address nodes a in ground arith

pub contains-node_jumps :
    (nodes : List NfaNode) (a s b : ℕ)
    → Distinct (addresses nodes)
    → (contains (node_jumps nodes a s) b ≡ true) ↔ Jumps nodes a s b
unfolding node_jumps addresses
contains-node_jumps [] a s b d = ground arith
contains-node_jumps (node ∷ nodes) a s b d =
    let r = contains-node_jumps nodes a s b d.1 in
    let k = Jumps-address nodes a s b in
    let h = contains-equal_range s node.jumps b in
    elim (Bool-cases (node.address == a)) [
      | inl e ↦
          let q = ap (contains (addresses nodes)) ((==_iff _ _).0 e) in
          rw (e) (let z : contains (addresses nodes) a ≡ false = sym q ∙ d.0 in ground arith)
      | inr e ↦ rw (e) (ground arith)
    ]

pub node_is_final-Final :
    (nodes : List NfaNode) (a : ℕ)
    → Distinct (addresses nodes)
    → (node_is_final nodes a ≡ true) ↔ Final nodes a
unfolding node_is_final addresses
node_is_final-Final [] a d = ground arith
node_is_final-Final (node ∷ nodes) a d =
    let r = node_is_final-Final nodes a d.1 in
    let k = Final-address nodes a in
    elim (Bool-cases (node.address == a)) [
      | inl e ↦
          let q = ap (contains (addresses nodes)) ((==_iff _ _).0 e) in
          rw (e) (let z : contains (addresses nodes) a ≡ false = sym q ∙ d.0 in ground arith)
      | inr e ↦ rw (e) (ground arith)
    ]
