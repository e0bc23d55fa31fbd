-- ===== src/Elevator/Riding/Remove.antt =====
-- `remove_from_list`.
use cs361_projects.Prelude.{
  ℕ, zero, suc, ◌<◌, ◌≡◌, refl, inl, inr, true, false, none, some, List, [], ◌∷◌, arith, ◌==◌,
  if◌then◌else◌, Bool-cases, length,
}
use cs361_projects.Prelude.Links.{Ptr, ◌∈◌, ◌∉◌, Distinct, Chain, Chain-frame, erase}
use cs361_projects.Elevator.Riding.{
  Store, next_of, ok, null_deref, assert_failed, set_next, find_prev, remove_from_list, OnlyLinks,
}

-- The node before `a`; `prev` stands before the list.
pred_of : Ptr → ℕ → List ℕ → Ptr
pred_of prev a [] = prev
pred_of prev a (x ∷ xs) = if x == a then prev else pred_of (some x) a xs

-- The loop stops at the passenger, if she is on the list.
find_prev-pred_of :
    (k : ℕ) (prev p : Ptr) (a : ℕ) (s : Store) (xs : List ℕ)
    → Chain (next_of s) p xs
    → a ∈ xs
    → length xs < k
    → find_prev k prev p a s ≡ ok (pred_of prev a xs)
unfolding find_prev pred_of
find_prev-pred_of zero prev p a s xs c m h = elim h [ ]
find_prev-pred_of (suc k) prev p a s [] c m h = cc
find_prev-pred_of (suc k) prev p a s (x ∷ []) c m h = rw c.0 (ground arith)
find_prev-pred_of (suc k) prev p a s (x ∷ y ∷ xs) c m h = rw c.0 (elim (Bool-cases (x == a)) [
  | inl hit ↦ ground arith
  | inr miss ↦
      rw (find_prev, miss, c.1.0)
        (find_prev-pred_of k (some x) (some y) a s (y ∷ xs) (refl, c.1.1) (ground arith)
          (omega arith))
])

pred_of-mem :
    (q a x : ℕ) (xs : List ℕ)
    → pred_of (some x) a xs ≡ some q
    → a ∈ xs
    → Distinct (x ∷ xs)
    → (q ∈ x ∷ xs) × ((q == a) ≡ false)
unfolding pred_of
pred_of-mem q a x [] e m d = cc
pred_of-mem q a x (y ∷ ys) e m d = elim (Bool-cases (y == a)) [
  | inl hit ↦ ground arith
  | inr miss ↦ ground (arith, pred_of-mem q a y ys)
]

-- Making the predecessor of `a` point behind it takes `a` out of the chain.
Chain-erase :
    (x a q : ℕ) (xs : List ℕ) (next next' : ℕ → Ptr)
    → Chain next (next x) xs
    → Distinct (x ∷ xs)
    → a ∈ xs
    → pred_of (some x) a xs ≡ some q
    → next' q ≡ next a
    → ((b : ℕ) → (b == q) ≡ false → (b == a) ≡ false → next' b ≡ next b)
    → Chain next' (next' x) (erase a xs)
unfolding pred_of erase
Chain-erase x a q [] next next' c d m e hook same = cc
Chain-erase x a q (y ∷ ys) next next' c d m e hook same = elim (Bool-cases (y == a)) [
  | inl hit ↦
      let stop : next' x ≡ next y = ground arith in
      rw (hit, stop)
        (Chain-frame next next' (next y) ys c.1 λ b in_ys. same b (ground arith) (ground arith))
  | inr miss ↦ rw miss (
    ground (arith, same x, pred_of-mem q a y ys),
    Chain-erase y a q ys next next' c.1 d.1 (ground arith) (ground arith) hook same,
  )
]

abbrev pub Removed : ℕ → Ptr → ℕ → Store → List ℕ → Type 0
Removed k head a s xs =
    (head' : Ptr) × (s' : Store) × (remove_from_list k head a s ≡ ok (head', s'))
    × Chain (next_of s') head' (erase a xs)
    × (next_of s' a ≡ none)
    × OnlyLinks xs s s'

-- The passenger stands first.
Removed-head :
    (k a : ℕ) (s : Store) (xs : List ℕ)
    → Chain (next_of s) (next_of s a) xs
    → Distinct (a ∷ xs)
    → length (a ∷ xs) < k
    → Removed k (some a) a s (a ∷ xs)
unfolding remove_from_list erase pred_of
Removed-head k a s xs c d h =
    let found = find_prev-pred_of k none (some a) a s (a ∷ xs) (refl, c) (ground arith) h in
    let s' : Store = set_next a none s in
    let self : (a == a) ≡ true = ground arith in
    (
      next_of s a,
      s',
      rw (found, self) refl,
      rw self (Chain-frame (next_of s) (next_of s') (next_of s a) xs c λ b m. ground arith),
      ground arith,
      λ b. ground arith,
    )

-- The passenger stands behind `x`.
Removed-tail :
    (k x a : ℕ) (s : Store) (xs : List ℕ)
    → Chain (next_of s) (next_of s x) xs
    → Distinct (x ∷ xs)
    → a ∈ xs
    → length (x ∷ xs) < k
    → (q : ℕ) → pred_of (some x) a xs ≡ some q
    → Removed k (some x) a s (x ∷ xs)
unfolding remove_from_list erase pred_of
Removed-tail k x a s xs c d m h q e =
    let (on, apart) = pred_of-mem q a x xs e m d in
    let found = find_prev-pred_of k none (some x) a s (x ∷ xs) (refl, c) (ground arith) h in
    let other : (x == a) ≡ false = ground arith in
    let s' : Store = set_next a none (set_next q (next_of s a) s) in
    (
      some x,
      s',
      rw (found, other, e) refl,
      rw other (
        refl,
        Chain-erase x a q xs (next_of s) (next_of s') c d m e (ground arith)
            (λ b o r. ground arith),
      ),
      ground arith,
      λ b. ground arith,
    )

-- Behind a first node the predecessor is a node.
pred_of-some : (x a : ℕ) (xs : List ℕ) → (q : ℕ) × (pred_of (some x) a xs ≡ some q)
unfolding pred_of
pred_of-some x a [] = (x, refl)
pred_of-some x a (y ∷ ys) = elim (Bool-cases (y == a)) [
  | inl hit ↦ (x, rw hit)
  | inr miss ↦ rw miss (pred_of-some y a ys)
]

-- On a list without repetition, with more fuel than riders, a rider leaves the list: the
-- others keep their order, her own link becomes NULL, and nothing but links of the riders
-- changes.
pub remove_from_list-Chain :
    (k : ℕ) (head : Ptr) (a : ℕ) (s : Store) (xs : List ℕ)
    → Chain (next_of s) head xs
    → Distinct xs
    → a ∈ xs
    → length xs < k
    → Removed k head a s xs
remove_from_list-Chain k head a s [] c d m h = cc
remove_from_list-Chain k head a s (x ∷ xs) c d m h = rw c.0 (elim (Bool-cases (a == x)) [
  | inl hit ↦ let e : a ≡ x = ground arith in rw (← e) (Removed-head k a s xs (rw e c.1) (rw e d) h)
  | inr miss ↦
      let (q, e) = pred_of-some x a xs in Removed-tail k x a s xs c.1 d (ground arith) h q e
])

find_prev_null : (k a : ℕ) (s : Store) → 0 < k → find_prev k none none a s ≡ null_deref
unfolding find_prev
find_prev_null zero a s h = elim h [ ]
find_prev_null (suc k) a s h = refl

find_prev-absent :
    (k : ℕ) (prev p : Ptr) (a : ℕ) (s : Store) (x : ℕ) (xs : List ℕ)
    → Chain (next_of s) p (x ∷ xs)
    → a ∉ x ∷ xs
    → length (x ∷ xs) < k
    → find_prev k prev p a s ≡ assert_failed
unfolding find_prev
find_prev-absent zero prev p a s x xs c m h = elim h [ ]
find_prev-absent (suc k) prev p a s x [] c m h =
    let other : (x == a) ≡ false = ground arith in rw (c.0, find_prev, other, c.1)
find_prev-absent (suc k) prev p a s x (y ∷ xs) c m h =
    let other : (x == a) ≡ false = ground arith in
    rw (c.0, find_prev, other, c.1.0)
      (find_prev-absent k (some x) (some y) a s y xs (refl, c.1.1) (ground arith) (omega arith))

-- With more fuel than riders, asked for somebody who is not riding, the loop ends in the
-- `assert`, and on an empty list it reads through NULL before any `assert`.
pub remove_from_list-absent :
    (k : ℕ) (head : Ptr) (a : ℕ) (s : Store) (xs : List ℕ)
    → Chain (next_of s) head xs
    → a ∉ xs
    → length xs < k
    → remove_from_list k head a s ≡ (elim xs [ [] ↦ null_deref | _ ∷ _ ↦ assert_failed ])
unfolding remove_from_list
remove_from_list-absent k head a s [] c m h = rw (c, find_prev_null k a s h)
remove_from_list-absent k head a s (x ∷ xs) c m h = rw (find_prev-absent k none head a s x xs c m h)
