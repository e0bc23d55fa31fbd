-- ===== src/Elevator/Display.antt =====
-- hw7-jli230-main/C/main.c: the board that `draw_state` prints, a row of text for every floor. A text is
-- the list of its bytes.
pub mod Boarded
pub mod Count
pub mod Aligned
use cs361_projects.Prelude.{
  ℕ, zero, suc, ◌+◌, ◌-◌, ◌*◌, ◌/◌, ◌%◌, Bool, true, false, ◌&&◌, List, [], ◌∷◌, ◌++◌, ◌==◌, ltb,
  if◌then◌else◌,
}
use cs361_projects.Prelude.Int.{ℤ, pos, negsuc, pos_part, ◌-ℤ◌, ltb_ℤ, ◌==ℤ◌}
use cs361_projects.Prelude.Text.{Chars}
use cs361_projects.Elevator.Config.{elevators, floors, passengers}
use cs361_projects.Elevator.Enforcer.{Car, Rider, is_waiting, is_entered}

-- The digits of a number, with fuel for each.
unfoldable pub digits : ℕ → ℕ → Chars
digits zero n = []
digits (suc k) n =
    let front = digits k (n / 10) in if ltb n 10 then (48 + n) ∷ [] else front ++ (48 + n % 10) ∷ []

-- `%d`
unfoldable pub decimal : ℤ → Chars
unfolding digits
decimal (pos n) = digits (suc n) n
decimal (negsuc n) = b'-' ∷ digits (suc (suc n)) (suc n)

-- `%02d`
unfoldable pub decimal2 : ℤ → Chars
unfolding decimal
decimal2 i = if ltb_ℤ i (pos 10) && ltb_ℤ (negsuc 0) i then 48 ∷ decimal i else decimal i

-- `" %c "` for an elevator on a row.
unfoldable pub cell : ℤ → Car → Chars
cell floor car =
    let shown =
      if car.floor ==ℤ floor
      then (if car.is_open then b'O' else b'_')
      else if ltb_ℤ floor car.floor
      then b'|'
      else b' ' in
    b' ' ∷ shown ∷ b' ' ∷ []

-- The loop over the elevators, with `n` rounds left at `el`.
unfoldable pub cells : ℕ → ℕ → ℤ → (ℕ → Car) → Chars
unfolding cell
cells zero el floor cars = []
cells (suc n) el floor cars = cell floor (cars el) ++ cells n (el + 1) floor cars

-- `passengers[p].state==ENTERED && elevators[passengers[p].in_elevator].floor==floor`
unfoldable pub is_inside : ℤ → (ℕ → Car) → Rider → Bool
is_inside floor cars rider =
    is_entered rider.state && ((cars (pos_part rider.in_elevator)).floor ==ℤ floor)

-- The loop over those inside: what is printed, and what is left of `align`.
unfoldable pub inside : ℕ → ℕ → ℤ → (ℕ → Car) → (ℕ → Rider) → ℤ → Chars × ℤ
unfolding is_inside decimal2
inside zero p floor cars riders align = ([], align)
inside (suc n) p floor cars riders align =
    let here = is_inside floor cars (riders p) in
    let rest = inside n (p + 1) floor cars riders (if here then align -ℤ pos 5 else align) in
    (if here then b'-' ∷ b'>' ∷ decimal2 (riders p).to_floor ++ b' ' ∷ rest.0 else rest.0, rest.1)

-- `while(align-->0) wprintw(displaywin," ");`
unfoldable pub spaces : ℕ → Chars
spaces zero = []
spaces (suc n) = b' ' ∷ spaces n

-- The loop over those who wait.
unfoldable pub queue : ℕ → ℕ → ℤ → (ℕ → Rider) → Chars
unfolding decimal
queue zero p floor riders = []
queue (suc n) p floor riders =
    let rest = queue n (p + 1) floor riders in
    if ((riders p).from_floor ==ℤ floor) && is_waiting (riders p).state
    then b'-' ∷ b'>' ∷ decimal (riders p).to_floor ++ b' ' ∷ rest
    else rest

-- Behind the number of the floor: the elevators, those inside, and spaces up to the next column.
unfoldable pub columns : ℤ → (ℕ → Car) → (ℕ → Rider) → Chars
columns floor cars riders =
    let r = inside passengers 0 floor cars riders (pos (15 * elevators)) in
    cells elevators 0 floor cars ++ (b' ' ∷ b' ' ∷ b' ' ∷ b' ' ∷ []) ++ r.0 ++ spaces (pos_part r.1)

unfoldable pub row : ℤ → (ℕ → Car) → (ℕ → Rider) → Chars
row floor cars riders =
    decimal floor
    ++ 9 ∷ columns floor cars riders
    ++ b'X' ∷ b' ' ∷ queue passengers 0 floor riders
    ++ 10 ∷ []

-- The loop over the floors, from the top, with `n` of them left.
unfoldable pub rows : ℕ → (ℕ → Car) → (ℕ → Rider) → Chars
rows zero cars riders = []
rows (suc n) cars riders = row (pos n) cars riders ++ rows n cars riders

-- What a round of `draw_state` prints.
unfoldable pub draw_state : (ℕ → Car) → (ℕ → Rider) → Chars
draw_state cars riders = rows floors cars riders
