-- ===== src/Elevator/Config.antt =====
-- hw7-jli230-main/C/elevator.h: the sizes of the experiment, at the values that the header gives
-- them when the compiler's command line sets none.
use cs361_projects.Prelude.{ℕ}

abbrev pub max_capacity : ℕ
max_capacity = 3

abbrev pub elevators : ℕ
elevators = 4

abbrev pub floors : ℕ
floors = 28

abbrev pub passengers : ℕ
passengers = 50
