-- ===== src/Elevator/Riding/RoundTrip.antt =====
-- `add_to_list` and then `remove_from_list`, for the same passenger.
use cs361_projects.Prelude.{
  ℕ, suc, ◌<◌, ◌≡◌, refl, sym, ap, ◌∙◌, fun_ext, subst, inl, inr, none, List, [], ◌∷◌, ◌++◌, arith,
  ◌==◌, ==_iff, Bool, true, false, Bool-cases, length, length-append, if◌then◌else◌,
}
use cs361_projects.Prelude.Links.{
  Ptr, has, has-append, ◌∈◌, ◌∉◌, Distinct, Distinct-snoc, Chain, erase,
}
use cs361_projects.Elevator.Riding.{
  PassengerInfo, Store, next_of, ok, add_to_list, remove_from_list, OnlyLinks,
}
use cs361_projects.Elevator.Riding.Add.{add_to_list-Chain}
use cs361_projects.Elevator.Riding.Remove.{remove_from_list-Chain}

-- Two chains through the same nodes have the same links.
Chain-links :
    (next next' : ℕ → Ptr) (p p' : Ptr) (xs : List ℕ)
    → Chain next p xs
    → Chain next' p' xs
    → (p ≡ p') × ((b : ℕ) → b ∈ xs → next b ≡ next' b)
Chain-links next next' p p' [] c c' = (c ∙ sym c', λ b m. cc m)
Chain-links next next' p p' (x ∷ xs) c c' =
    let rest = Chain-links next next' (next x) (next' x) xs c.1 c'.1 in
    (
      c.0 ∙ sym c'.0,
      λ b m. elim (Bool-cases (b == x)) [
        | inl here ↦ let e : b ≡ x = (==_iff b x).0 here in rw e rest.0
        | inr behind ↦ rest.1 b (ground arith)
      ],
    )

erase-snoc : (xs : List ℕ) (a : ℕ) → a ∉ xs → erase a (xs ++ a ∷ []) ≡ xs
unfolding erase
erase-snoc [] a out = ground arith
erase-snoc (x ∷ xs) a out =
    let other : (x == a) ≡ false = ground arith in
    let rest : erase a (xs ++ a ∷ []) ≡ xs = erase-snoc xs a (ground arith) in
    rw other (ap (λ ys. x ∷ ys) rest)

abbrev with_next : Ptr → PassengerInfo → PassengerInfo
with_next n r = record r { next = n }

with_next_own : (r : PassengerInfo) (n : Ptr) → n ≡ r.next → with_next n r ≡ r
with_next_own r n e = ap (λ m. with_next m r) e

-- What differs from the array in links only, and has its links, is the array.
links_back :
    (s s' s'' : Store) (xs ys : List ℕ)
    → OnlyLinks xs s s'
    → OnlyLinks ys s' s''
    → ((b : ℕ) → next_of s'' b ≡ next_of s b)
    → s'' ≡ s
links_back s s' s'' xs ys one two links =
    fun_ext λ b. only_next (s b) (s' b) (s'' b) (has b xs) (has b ys) (one b) (two b) (links b)
  where
    only_next :
        (r r' r'' : PassengerInfo) (x y : Bool)
        → r' ≡ (if x then record r { next = r'.next } else r)
        → r'' ≡ (if y then record r' { next = r''.next } else r')
        → r''.next ≡ r.next
        → r'' ≡ r
    only_next r r' r'' true true e e' n =
        e' ∙ (ap (with_next r''.next) e ∙ with_next_own r r''.next n)
    only_next r r' r'' true false e e' n =
        let mine : r'.next ≡ r.next = sym (ap (λ (q : PassengerInfo). q.next) e') ∙ n in
        e' ∙ (e ∙ with_next_own r r'.next mine)
    only_next r r' r'' false true e e' n =
        e' ∙ (ap (with_next r''.next) e ∙ with_next_own r r''.next n)
    only_next r r' r'' false false e e' n = e' ∙ e

-- On a list without repetition, with fuel for one rider more, a passenger who is not riding and has no
-- link is added and removed again: both calls succeed, and the head and the array are as before.
pub remove-add :
    (k : ℕ) (head : Ptr) (a : ℕ) (s : Store) (xs : List ℕ)
    → Chain (next_of s) head xs
    → Distinct xs
    → a ∉ xs
    → (s a).next ≡ none
    → suc (length xs) < k
    → (head' : Ptr) × (s' : Store) × (add_to_list k head a s ≡ ok (head', s'))
      × (remove_from_list k head' a s' ≡ ok (head, s))
remove-add k head a s xs c d out free h =
    let (head', s', added, chain', only') =
      add_to_list-Chain k head a s xs c d out free (omega arith) in
    let on : a ∈ xs ++ a ∷ [] = ground (arith, has-append a xs (a ∷ [])) in
    let short : length (xs ++ a ∷ []) < k = omega (arith, length-append xs (a ∷ [])) in
    let (head'', s'', removed, chain'', none'', only'') =
      remove_from_list-Chain k head' a s' (xs ++ a ∷ []) chain' (Distinct-snoc xs a d out) on
        short in
    let whole : Chain (next_of s'') head'' xs =
      subst (λ ys. Chain (next_of s'') head'' ys) (erase-snoc xs a out) chain'' in
    let (heads, links) = Chain-links (next_of s'') (next_of s) head'' head xs whole c in
    let same : s'' ≡ s = links_back s s' s'' xs (xs ++ a ∷ []) only' only'' λ b.
      elim (Bool-cases (has b xs)) [
        | inl on_list ↦ links b on_list
        | inr off_list ↦ elim (Bool-cases (b == a)) [
          | inl hers ↦ let e : b ≡ a = (==_iff b a).0 hers in rw e (none'' ∙ sym free)
          | inr other ↦
              let e₁ = only' b in
              let e₂ = only'' b in ground (arith, has-append b xs (a ∷ []), e₁, e₂)
        ]
      ] in
    (head', s', added, rw (removed, heads, same) refl)
