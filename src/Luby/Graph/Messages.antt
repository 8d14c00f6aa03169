-- ===== src/Luby/Graph/Messages.antt =====
-- One elimination step of `_BlockGraph` and the values of its checks.
use stovacore.Prelude.{
  ℕ, ◌≤◌, ◌<◌, bit_xor, ◌≡◌, ◌≢◌, ◌⊎◌, refl, sym, ap, ◌∙◌, inl, inr, true, false, some, List, [],
  ◌∷◌, ◌++◌, arith, length, get_elem?, set, All, contains, IsSetList, ◌==◌, Bool-cases, some_inj,
  ==_iff, get_elem?-set_self, get_elem?-set_ne, All-append, length-append,
}
use mathlib.Core.Path.{subst}
use stovacore.Prelude.Xor.{xor_assoc, xor_comm, xor-zero, xor_cancel}
use stovacore.Prelude.Result.{ok}
use stovacore.Luby.Graph.{CheckNode, set_remove, deref, yielded, pass_messages}

-- The exclusive or of the source blocks of a list of nodes.
unfoldable pub xor_of : (ℕ → ℕ) → List ℕ → ℕ
xor_of src [] = 0
xor_of src (n ∷ ns) = bit_xor (src n) (xor_of src ns)

module _ (src : ℕ → ℕ) (k : ℕ) where
  -- A check node that says the truth about its nodes, all of them below `k`.
  abbrev pub IsTrueCheck : CheckNode → Type 0
  IsTrueCheck c = (c.check ≡ xor_of src c.src_nodes) × All (λ n. n < k) c.src_nodes

  abbrev pub IsTrueHeap : List CheckNode → Type 0
  IsTrueHeap heap = (i : ℕ) (c : CheckNode) → get_elem? heap i ≡ some c → IsTrueCheck c

  -- A resolved node with its value.
  abbrev pub IsTruePair : ℕ × ℕ → Type 0
  IsTruePair p = (p.1 ≡ src p.0) × (p.0 < k)

-- Reference `i` is to a check that still waits for node `n`.
abbrev pub Waits : List CheckNode → ℕ → ℕ → Type 0
Waits heap n i = (c : CheckNode) × (get_elem? heap i ≡ some c) × (contains n c.src_nodes ≡ true)

-- What removing a node from a set leaves.
pub record Removed (src : ℕ → ℕ) (k n : ℕ) (xs : List ℕ) : Type 0 where
  pub rest : List ℕ
  pub runs : set_remove n xs ≡ ok rest
  pub value : bit_xor (xor_of src xs) (src n) ≡ xor_of src rest
  pub others : (m : ℕ) → m ≢ n → contains m xs ≡ true → contains m rest ≡ true
  pub below : All (λ x. x < k) rest

removed_first :
    (src : ℕ → ℕ) (n x : ℕ) (xs : List ℕ)
    → (n == x) ≡ true
    → bit_xor (bit_xor (src x) (xor_of src xs)) (src n) ≡ xor_of src xs
removed_first src n x xs same =
    let e : n ≡ x = (==_iff n x).0 same in
    rw (e, xor_comm (src x) (xor_of src xs)) (xor_cancel (xor_of src xs) (src x))

pub set_remove-Removed :
    (src : ℕ → ℕ) (k n : ℕ) (xs : List ℕ)
    → contains n xs ≡ true
    → All (λ x. x < k) xs
    → Removed src k n xs
unfolding set_remove xor_of
set_remove-Removed src k n [] h b = ground arith
set_remove-Removed src k n (x ∷ xs) h b = elim (Bool-cases (n == x)) [
  | inl same ↦ record {
    rest = xs;
    runs = rw same;
    value = removed_first src n x xs same;
    others = λ m ne c. ground arith;
    below = b.1;
  }
  | inr differs ↦
      let r = set_remove-Removed src k n xs (ground arith) b.1 in
      record {
        rest = x ∷ r.rest;
        runs = rw (differs, r.runs);
        value = xor_assoc (src x) (xor_of src xs) (src n) ∙ ap (λ t. bit_xor (src x) t) r.value;
        others = λ m ne c. ground (arith, r.others m ne);
        below = (b.0, r.below);
      }
]

-- What stands at a reference after a write at another, or at the same one.
get_elem?-set_cases :
    {A : Type 0} (xs : List A) (i j : ℕ) (v w a : A)
    → get_elem? xs i ≡ some w
    → get_elem? (set xs i v) j ≡ some a
    → (v ≡ a) ⊎ (get_elem? xs j ≡ some a)
get_elem?-set_cases xs i j v w a e h = elim (Bool-cases (i == j)) [
  | inl same ↦
      let p : i ≡ j = (==_iff i j).0 same in
      inl (
        some_inj (
          sym (get_elem?-set_self xs i v w e)
          ∙ subst (λ (t : ℕ). get_elem? (set xs i v) t ≡ some a) (sym p) h))
  | inr differs ↦ inr (sym (get_elem?-set_ne xs i j v (λ p. ground arith)) ∙ h)
]

module _ (src : ℕ → ℕ) (k : ℕ) where
  set-IsTrueHeap :
      (heap : List CheckNode) (i : ℕ) (c c' : CheckNode)
      → IsTrueHeap src k heap
      → get_elem? heap i ≡ some c
      → IsTrueCheck src k c'
      → IsTrueHeap src k (set heap i c')
  set-IsTrueHeap heap i c c' t e t' j a h = elim (get_elem?-set_cases heap i j c' c a e h) [
    | inl p ↦ subst (IsTrueCheck src k) p t'
    | inr p ↦ t j a p
  ]

-- Writing a check keeps what the others wait for, and what it still waits for itself.
set-Waits :
    (heap : List CheckNode) (i : ℕ) (c c' : CheckNode) (m j : ℕ)
    → get_elem? heap i ≡ some c
    → (contains m c.src_nodes ≡ true → contains m c'.src_nodes ≡ true)
    → Waits heap m j
    → Waits (set heap i c') m j
set-Waits heap i c c' m j e keep (a, ea, h) = elim (Bool-cases (i == j)) [
  | inl same ↦
      let p : i ≡ j = (==_iff i j).0 same in
      (
        c',
        rw (← p) (get_elem?-set_self heap i c' c e),
        keep (
            subst (λ (t : CheckNode). contains m t.src_nodes ≡ true)
              (some_inj (sym ea ∙ subst (λ (t : ℕ). get_elem? heap t ≡ some c) p e)) h),
      )
  | inr differs ↦ (a, get_elem?-set_ne heap i j c' (λ p. ground arith) ∙ ea, h)
]

-- Other references do not see the write.
set-Waits_other :
    (heap : List CheckNode) (i : ℕ) (c' : CheckNode) (m : ℕ) (ids : List ℕ)
    → contains i ids ≡ false
    → All (Waits heap m) ids
    → All (Waits (set heap i c') m) ids
set-Waits_other heap i c' m [] h w = tt
set-Waits_other heap i c' m (j ∷ ids) h (w, ws) = (
  (w.0, get_elem?-set_ne heap i j c' (λ p. ground arith) ∙ w.1, w.2),
  set-Waits_other heap i c' m ids (ground arith) ws,
)

length-yielded : (ns : List ℕ) (check : ℕ) → length (yielded ns check) ≤ 1
unfolding yielded
length-yielded [] check = omega arith
length-yielded (n ∷ []) check = omega arith
length-yielded (n ∷ m ∷ ns) check = omega arith

-- One round of the loop whose reads succeed.
pass_messages_step :
    (node message i : ℕ) (ids : List ℕ) (heap : List CheckNode) (c : CheckNode) (rest : List ℕ)
    (r : List CheckNode × List (ℕ × ℕ))
    → get_elem? heap i ≡ some c
    → set_remove node c.src_nodes ≡ ok rest
    → pass_messages node message ids
        (set heap i (record { src_nodes = rest; check = bit_xor c.check message }))
      ≡ ok r
    → pass_messages node message (i ∷ ids) heap
      ≡ ok (r.0, yielded rest (bit_xor c.check message) ++ r.1)
unfolding pass_messages
pass_messages_step node message i ids heap c rest r e f g = rw (e, deref) (rw f (rw g))

module _ (src : ℕ → ℕ) (k : ℕ) where
  yielded-IsTruePair :
      (ns : List ℕ) (check : ℕ)
      → check ≡ xor_of src ns
      → All (λ n. n < k) ns
      → All (IsTruePair src k) (yielded ns check)
  unfolding yielded xor_of
  yielded-IsTruePair [] check e b = tt
  yielded-IsTruePair (n ∷ []) check e b = ((e ∙ xor-zero (src n), b.0), tt)
  yielded-IsTruePair (n ∷ m ∷ ns) check e b = tt

  -- The loop over the checks of a node runs to its end, keeps every check true, yields only true
  -- pairs, at most one for each check, and takes only the node off the sets.
  pub record Passed (node message : ℕ) (ids : List ℕ) (heap : List CheckNode) : Type 0 where
    pub heap' : List CheckNode
    pub out : List (ℕ × ℕ)
    pub runs : pass_messages node message ids heap ≡ ok (heap', out)
    pub true_heap : IsTrueHeap src k heap'
    pub true_out : All (IsTruePair src k) out
    pub count : length out ≤ length ids
    pub waits : (m i : ℕ) → m ≢ node → Waits heap m i → Waits heap' m i

  pub pass_messages-Passed :
      (node : ℕ) (ids : List ℕ) (heap : List CheckNode)
      → IsSetList ids
      → All (Waits heap node) ids
      → IsTrueHeap src k heap
      → Passed node (src node) ids heap
  unfolding pass_messages
  pass_messages-Passed node [] heap s w t = record {
    heap' = heap;
    out = [];
    runs = refl;
    true_heap = t;
    true_out = tt;
    count = omega arith;
    waits = λ m i ne h. h;
  }
  pass_messages-Passed node (i ∷ ids) heap s ((c, e, h), w) t =
      let r = set_remove-Removed src k node c.src_nodes h (t i c e).1 in
      let c' : CheckNode = record { src_nodes = r.rest; check = bit_xor c.check (src node) } in
      let value : c'.check ≡ xor_of src r.rest =
        ap (λ v. bit_xor v (src node)) (t i c e).0 ∙ r.value in
      let p =
        pass_messages-Passed node ids (set heap i c') s.1 (set-Waits_other heap i c' node ids s.0 w)
          (set-IsTrueHeap src k heap i c c' t e (value, r.below)) in
      record {
        heap' = p.heap';
        out = yielded r.rest c'.check ++ p.out;
        runs =
            pass_messages_step node (src node) i ids heap c r.rest (p.heap', p.out) e r.runs p.runs;
        true_heap = p.true_heap;
        true_out =
            All-append (IsTruePair src k) (yielded r.rest c'.check) p.out
              (yielded-IsTruePair r.rest c'.check value r.below) p.true_out;
        count = omega (
          arith,
          length-append (yielded r.rest c'.check) p.out,
          length-yielded r.rest c'.check,
          p.count,
        );
        waits = λ m j ne v. p.waits m j ne (set-Waits heap i c c' m j e (r.others m ne) v);
      }
