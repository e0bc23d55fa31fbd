-- ===== src/Counter/Examples.antt =====
-- The counter at a concrete input.
use cs361_projects.Prelude.{◌≡◌, true}
use cs361_projects.Counter.{reset, incs, reading, incs-reset}

-- Two calls of `inc` behind the stumble, `reset`, then fifteen calls.
incs-reset_example : incs 15 (reset (record { c = 13; thirteenthrun = true })) ≡ reading 15
incs-reset_example = incs-reset (record { c = 13; thirteenthrun = true }) 15
