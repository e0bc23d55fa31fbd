-- ===== src/Elevator/Riding.antt =====
-- hw7-jli230-main/C/hw7.c: `struct Passenger_info`, `add_to_list` and `remove_from_list`, the list
-- of riders that each elevator threads through the array `passengers`.
-- A pointer into the array is the index of its element, and `none` is NULL. The loops that follow
-- `next` take fuel; the theorems give them one more round than the list has nodes.
pub mod Add
pub mod Remove
pub mod Goals
pub mod RoundTrip
use cs361_projects.Prelude.{ℕ, zero, suc, none, some, ◌≡◌, List, true, false, ◌==◌, if◌then◌else◌}
use cs361_projects.Prelude.Int.{ℤ}
use cs361_projects.Prelude.Links.{Ptr, update, has}

pub record PassengerInfo : Type 0 where
  pub id : ℕ
  pub from_floor : ℤ
  pub to_floor : ℤ
  pub elenumber : ℕ
  pub status : ℕ
  pub next : Ptr

-- The array `passengers`.
abbrev pub Store : Type 0
Store = ℕ → PassengerInfo

abbrev pub next_of : Store → ℕ → Ptr
next_of s a = (s a).next

-- What a walk over the list comes to: a value, a read through NULL, a failed `assert`, or more
-- rounds than the fuel allows.
pub data Run {ℓ} (A : Type ℓ) : Type ℓ where
  ok : A → Run A
  null_deref assert_failed out_of_fuel : Run A

infixl 5 ◌>>=◌
abbrev pub ◌>>=◌ {ℓ κ} : {A : Type ℓ} {B : Type κ} → Run A → (A → Run B) → Run B
◌>>=◌ (ok a) f = f a
◌>>=◌ null_deref f = null_deref
◌>>=◌ assert_failed f = assert_failed
◌>>=◌ out_of_fuel f = out_of_fuel

-- `p->next = q`
set_next : ℕ → Ptr → Store → Store
set_next p q s = update s p (record (s p) { next = q })

-- `while (p->next != NULL) p = p->next;`
find_last : ℕ → ℕ → Store → Run ℕ
find_last zero p s = out_of_fuel
find_last (suc k) p s = elim (s p).next [ none ↦ ok p | some q ↦ find_last k q s ]

-- The new head and the new array.
unfoldable pub add_to_list : ℕ → Ptr → ℕ → Store → Run (Ptr × Store)
unfolding find_last set_next
add_to_list k none passenger s = ok (some passenger, s)
add_to_list k (some p) passenger s =
    find_last k p s >>= λ last. ok (some p, set_next last (some passenger) s)

-- The `while (p != passenger)` loop: the node before the passenger, if there is one.
find_prev : ℕ → (prev p : Ptr) → ℕ → Store → Run Ptr
find_prev zero prev p passenger s = out_of_fuel
find_prev (suc k) prev none passenger s = null_deref
find_prev (suc k) prev (some q) passenger s = elim (q == passenger) [
  | true ↦ ok prev
  | false ↦ elim (s q).next [
    | none ↦ assert_failed
    | some r ↦ find_prev k (some q) (some r) passenger s
  ]
]

-- `*head = p->next` or `prev->next = p->next`, at `p == passenger`
unhook : (head prev : Ptr) → ℕ → Store → Ptr × Store
unhook head none passenger s = ((s passenger).next, s)
unhook head (some q) passenger s = (head, set_next q (s passenger).next s)

unfoldable pub remove_from_list : ℕ → Ptr → ℕ → Store → Run (Ptr × Store)
unfolding find_prev unhook set_next
remove_from_list k head passenger s = find_prev k none head passenger s >>= λ prev.
    let (head', s') = unhook head prev passenger s in ok (head', set_next passenger none s')

-- At most the links of the passengers in the list have changed.
abbrev pub OnlyLinks : List ℕ → Store → Store → Type 0
OnlyLinks xs s s' = (b : ℕ) → s' b ≡ (if has b xs then record (s b) { next = (s' b).next } else s b)
