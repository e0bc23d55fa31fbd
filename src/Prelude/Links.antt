-- ===== src/Prelude/Links.antt =====
-- Singly linked nodes: the successor of the node at an address is a pointer, `none` for NULL.
use Prim.Native.Nat.{ℕ, suc}
use mathlib.Core.Path.{◌≡◌, refl}
use mathlib.Core.Bool.{Bool, true, false, ◌||◌}
use mathlib.Core.Option.{Option, none, some}
use mathlib.Core.List.{List, [], ◌∷◌, ◌++◌}
use native.Mathlib.Omega.{arith}
use cs361_projects.Prelude.Lists.{length}
use cs361_projects.Prelude.Tests.{◌==◌, if◌then◌else◌}

abbrev pub Ptr : Type 0
Ptr = Option ℕ

-- A function changed at one argument.
abbrev pub update {ℓ} : {A : Type ℓ} → (ℕ → A) → ℕ → A → ℕ → A
update f i a j = if i == j then a else f j

pub update_self {ℓ} : {A : Type ℓ} (f : ℕ → A) (i : ℕ) (a : A) → update f i a i ≡ a
update_self f i a = ground arith

abbrev pub has : ℕ → List ℕ → Bool
has a [] = false
has a (x ∷ xs) = (a == x) || has a xs

infix 40 ◌∈◌ ◌∉◌
abbrev pub ◌∈◌ : ℕ → List ℕ → Type 0
a ∈ xs = has a xs ≡ true

abbrev pub ◌∉◌ : ℕ → List ℕ → Type 0
a ∉ xs = has a xs ≡ false

abbrev pub Distinct : List ℕ → Type 0
Distinct [] = Unit
Distinct (x ∷ xs) = (x ∉ xs) × Distinct xs

-- From the pointer the links lead through the nodes of the list to NULL.
abbrev pub Chain : (ℕ → Ptr) → Ptr → List ℕ → Type 0
Chain next p [] = p ≡ none
Chain next p (x ∷ xs) = (p ≡ some x) × Chain next (next x) xs

pub has-append : (a : ℕ) (xs ys : List ℕ) → has a (xs ++ ys) ≡ (has a xs || has a ys)
has-append a [] ys = refl
has-append a (x ∷ xs) ys = ground (arith, has-append a xs ys)

-- A chain survives a change that spares the successors of its own nodes.
pub Chain-frame :
    (next next' : ℕ → Ptr) (p : Ptr) (xs : List ℕ)
    → Chain next p xs
    → ((a : ℕ) → a ∈ xs → next' a ≡ next a)
    → Chain next' p xs
Chain-frame next next' p [] c same = c
Chain-frame next next' p (x ∷ xs) c same = (
  c.0,
  rw (same x (ground arith)) (Chain-frame next next' (next x) xs c.1 λ a m. same a (ground arith)),
)

-- A chain leads through one list only.
pub Chain-unique :
    (next : ℕ → Ptr) (p : Ptr) (xs ys : List ℕ) → Chain next p xs → Chain next p ys → xs ≡ ys
Chain-unique next p [] [] c d = refl
Chain-unique next p [] (y ∷ ys) c d = cc
Chain-unique next p (x ∷ xs) [] c d = cc
Chain-unique next p (x ∷ xs) (y ∷ ys) c d =
    let e : x ≡ y = cc in cc (e, Chain-unique next (next x) xs ys c.1 (rw e d.1))

pub Distinct-snoc : (xs : List ℕ) (a : ℕ) → Distinct xs → a ∉ xs → Distinct (xs ++ a ∷ [])
Distinct-snoc [] a d out = (refl, tt)
Distinct-snoc (x ∷ xs) a d out =
    (ground (arith, has-append x xs (a ∷ [])), Distinct-snoc xs a d.1 (ground arith))

-- The list without the first occurrence of `a`.
unfoldable pub erase : ℕ → List ℕ → List ℕ
erase a [] = []
erase a (x ∷ xs) = if x == a then xs else x ∷ erase a xs

pub has-erase :
    (q a : ℕ) (xs : List ℕ)
    → Distinct xs
    → has q (erase a xs) ≡ (if q == a then false else has q xs)
unfolding erase
has-erase q a [] d = ground arith
has-erase q a (x ∷ xs) d = ground (arith, has-erase q a xs d.1)

pub Distinct-erase : (a : ℕ) (xs : List ℕ) → Distinct xs → Distinct (erase a xs)
unfolding erase
Distinct-erase a [] d = tt
Distinct-erase a (x ∷ xs) d = ground (arith, Distinct-erase a xs d.1, has-erase x a xs d.1)

pub length-erase : (a : ℕ) (xs : List ℕ) → a ∈ xs → suc (length (erase a xs)) ≡ length xs
unfolding erase
length-erase a [] m = cc
length-erase a (x ∷ xs) m = ground (arith, length-erase a xs)
