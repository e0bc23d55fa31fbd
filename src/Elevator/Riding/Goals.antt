-- ===== src/Elevator/Riding/Goals.antt =====
-- The operations on the list of riders leave the floors that the passengers have asked for.
use cs361_projects.Prelude.{ℕ, ◌≡◌, refl, ◌∙◌, none, some, arith}
use cs361_projects.Prelude.Links.{Ptr}
use cs361_projects.Elevator.Riding.{
  Store, Run, ok, null_deref, assert_failed, out_of_fuel, ◌>>=◌, set_next, find_last, find_prev,
  unhook, add_to_list, remove_from_list,
}

-- A property of what a walk over the riders comes to, if it comes to an end.
abbrev pub Yields {ℓ} : {A : Type ℓ} → (A → Type 0) → Run A → Type 0
Yields P (ok a) = P a
Yields P null_deref = Unit
Yields P assert_failed = Unit
Yields P out_of_fuel = Unit

pub Yields-bind {ℓ κ} :
    {A : Type ℓ} {B : Type κ} (Q : A → Type 0) (P : B → Type 0) (o : Run A) (f : A → Run B)
    → Yields Q o
    → ((a : A) → Q a → Yields P (f a))
    → Yields P (o >>= f)
Yields-bind Q P (ok a) f y h = h a y
Yields-bind Q P null_deref f y h = tt
Yields-bind Q P assert_failed f y h = tt
Yields-bind Q P out_of_fuel f y h = tt

-- A walk that is asked nothing.
pub Yields-any {ℓ} : {A : Type ℓ} (o : Run A) → Yields (λ _. Unit {0}) o
Yields-any (ok a) = tt
Yields-any null_deref = tt
Yields-any assert_failed = tt
Yields-any out_of_fuel = tt

abbrev pub SameGoals : Store → Store → Type 0
SameGoals s s' = (b : ℕ) → (s' b).to_floor ≡ (s b).to_floor

set_next-SameGoals : (p : ℕ) (q : Ptr) (s : Store) → SameGoals s (set_next p q s)
unfolding set_next
set_next-SameGoals p q s b = ground arith

pub add_to_list-SameGoals :
    (k p : ℕ) (head : Ptr) (s : Store) → Yields (λ r. SameGoals s r.1) (add_to_list k head p s)
unfolding add_to_list
add_to_list-SameGoals k p none s = λ b. refl
add_to_list-SameGoals k p (some q) s =
    Yields-bind (λ _. Unit {0}) (λ r. SameGoals s r.1) (find_last k q s) _
      (Yields-any (find_last k q s)) (λ last _. set_next-SameGoals last (some p) s)

unhook-SameGoals : (head prev : Ptr) (p : ℕ) (s : Store) → SameGoals s (unhook head prev p s).1
unfolding unhook
unhook-SameGoals head none p s b = refl
unhook-SameGoals head (some q) p s b = set_next-SameGoals q _ s b

pub remove_from_list-SameGoals :
    (k p : ℕ) (head : Ptr) (s : Store) → Yields (λ r. SameGoals s r.1) (remove_from_list k head p s)
unfolding remove_from_list
remove_from_list-SameGoals k p head s =
    Yields-bind (λ _. Unit {0}) (λ r. SameGoals s r.1) (find_prev k none head p s) _
      (Yields-any (find_prev k none head p s))
      (λ prev _ b.
        set_next-SameGoals p none (unhook head prev p s).1 b ∙ unhook-SameGoals head prev p s b)
