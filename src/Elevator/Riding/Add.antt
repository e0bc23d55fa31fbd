-- ===== src/Elevator/Riding/Add.antt =====
-- `add_to_list`.
use cs361_projects.Prelude.{
  ℕ, zero, suc, ◌<◌, ◌≡◌, refl, false, none, some, List, [], ◌∷◌, ◌++◌, arith, ◌==◌, length,
}
use cs361_projects.Prelude.Links.{Ptr, ◌∈◌, ◌∉◌, Distinct, Chain}
use cs361_projects.Elevator.Riding.{Store, next_of, ok, set_next, find_last, add_to_list, OnlyLinks}

-- The last node of a chain that begins with `p`.
last_of : ℕ → List ℕ → ℕ
last_of p [] = p
last_of p (x ∷ xs) = last_of x xs

find_last-last_of :
    (k p : ℕ) (xs : List ℕ) (s : Store)
    → Chain (next_of s) (s p).next xs
    → length xs < k
    → find_last k p s ≡ ok (last_of p xs)
unfolding find_last last_of
find_last-last_of zero p xs s c h = elim h [ ]
find_last-last_of (suc k) p [] s c h = rw (c, find_last) refl
find_last-last_of (suc k) p (x ∷ xs) s c h =
    rw (c.0, find_last) (find_last-last_of k x xs s c.1 (omega arith))

-- The last node is a node of the chain.
last_of-mem : (p : ℕ) (xs : List ℕ) → last_of p xs ∈ p ∷ xs
unfolding last_of
last_of-mem p [] = ground arith
last_of-mem p (x ∷ xs) = ground (arith, last_of-mem x xs)

-- Hooking a new node to the last one puts it behind the others.
Chain-link :
    (p : ℕ) (xs : List ℕ) (a : ℕ) (next next' : ℕ → Ptr)
    → Chain next (next p) xs
    → Distinct (p ∷ xs)
    → a ∉ p ∷ xs
    → next a ≡ none
    → next' (last_of p xs) ≡ some a
    → ((b : ℕ) → (b == last_of p xs) ≡ false → next' b ≡ next b)
    → Chain next' (next' p) (xs ++ a ∷ [])
unfolding last_of
Chain-link p [] a next next' c d out fresh hook same = (hook, ground (arith, same a))
Chain-link p (x ∷ xs) a next next' c d out fresh hook same = (
  ground (arith, same p, last_of-mem x xs),
  Chain-link x xs a next next' c.1 d.1 (ground arith) fresh hook same,
)

-- What the call has to do, for the riders in the list.
abbrev pub Added : ℕ → Ptr → ℕ → Store → List ℕ → Type 0
Added k head a s xs =
    (head' : Ptr) × (s' : Store) × (add_to_list k head a s ≡ ok (head', s'))
    × Chain (next_of s') head' (xs ++ a ∷ [])
    × OnlyLinks xs s s'

Added-some :
    (k p a : ℕ) (s : Store) (xs : List ℕ)
    → Chain (next_of s) (next_of s p) xs
    → Distinct (p ∷ xs)
    → a ∉ p ∷ xs
    → next_of s a ≡ none
    → length xs < k
    → Added k (some p) a s (p ∷ xs)
unfolding add_to_list
Added-some k p a s xs c d out fresh h =
    let last : ℕ = last_of p xs in
    let found = find_last-last_of k p xs s c h in
    (
      some p,
      set_next last (some a) s,
      rw found refl,
      (
        refl,
        Chain-link p xs a (next_of s) (next_of (set_next last (some a) s)) c d out fresh
            (ground arith) (λ b m. ground arith),
      ),
      λ b. ground (arith, last_of-mem p xs),
    )

-- On a list without repetition, with more fuel than riders, a passenger who is not riding and
-- has no link becomes the last rider; the list keeps its order, and nothing but the link of
-- the former last rider changes.
pub add_to_list-Chain :
    (k : ℕ) (head : Ptr) (a : ℕ) (s : Store) (xs : List ℕ)
    → Chain (next_of s) head xs
    → Distinct xs
    → a ∉ xs
    → (s a).next ≡ none
    → length xs < k
    → Added k head a s xs
unfolding add_to_list
add_to_list-Chain k none a s [] c d out fresh h = (some a, s, refl, (refl, fresh), λ b. refl)
add_to_list-Chain k none a s (x ∷ xs) c d out fresh h = cc (c.0)
add_to_list-Chain k (some p) a s [] c d out fresh h = cc c
add_to_list-Chain k (some p) a s (x ∷ xs) c d out fresh h =
    let e : p ≡ x = cc (c.0) in
    rw (← e) (Added-some k p a s xs (rw e c.1) (rw e d) (rw e out) fresh (omega arith))
