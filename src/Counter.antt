-- ===== src/Counter.antt =====
-- hw2-jli230-main/C/counter.c: a counter that stumbles at thirteen.
-- An `int` is a natural number here; the counter stays below its bound for two thousand million calls.
mod Examples
use cs361_projects.Prelude.{
  ℕ, zero, suc, ◌+◌, ◌-◌, ◌≡◌, refl, Bool, true, false, ◌&&◌, ◌||◌, not, arith, ◌==◌, if◌then◌else◌,
}

-- The globals `c` and `thirteenthrun`.
pub record Counter : Type 0 where
  pub c : ℕ
  pub thirteenthrun : Bool

abbrev start : Counter
start = record { c = 0; thirteenthrun = false }

-- `inc`: the new globals, whose `c` it returns.
unfoldable pub inc : Counter → Counter
inc s =
    let n : ℕ = s.c + 1 in
    if (n == 13) && not s.thirteenthrun
    then record { c = n - 1; thirteenthrun = true }
    else if (n == 14) && s.thirteenthrun
    then record { c = n + 1; thirteenthrun = false }
    else record s { c = n }

-- `reset`
unfoldable pub reset : Counter → Counter
reset s = record { c = 0; thirteenthrun = if s.thirteenthrun then false else s.thirteenthrun }

-- So many calls of `inc`.
unfoldable pub incs : ℕ → Counter → Counter
incs zero s = s
incs (suc n) s = inc (incs n s)

-- The number of the call, but for calls 13 and 14, which are one behind.
abbrev pub reading : ℕ → Counter
reading n = record {
  c = if (n == 13) then 12 else if (n == 14) then 13 else n;
  thirteenthrun = (n == 13) || (n == 14);
}

inc-reading : (n : ℕ) → inc (reading n) ≡ reading (suc n)
unfolding inc
inc-reading n = ground arith

-- From any state, after `reset` the call of `inc` number `n` leaves and returns `n`, except
-- that call 13 gives 12 and call 14 gives 13; `thirteenthrun` is set behind calls 13 and 14 alone.
pub incs-reset : (s : Counter) (n : ℕ) → incs n (reset s) ≡ reading n
unfolding incs reset
incs-reset s zero = ground arith
incs-reset s (suc n) = rw (incs-reset s n) (inc-reading n)
