-- ===== src/WateringTask/Window.antt =====
-- `wateringWindowOpen` of main/src/main.cpp against the hours on a clock face.
use plant_watering.Prelude.{ℕ, ◌+◌, ◌-◌, ◌%◌, ◌≤◌, ◌<◌, ◌≡◌, ◌↔◌, true, arith}
use plant_watering.WateringTask.{watering_window_open}

abbrev seconds_per_day : ℕ
seconds_per_day = 86400

-- The seconds from one time of day to the next occurrence of another.
abbrev pub seconds_until : ℕ → ℕ → ℕ
seconds_until from to = (to + seconds_per_day - from) % seconds_per_day

-- The window is open exactly while the time that has passed since its start is at most the time from
-- its start to its end, both around the clock: also where the window spans midnight.
pub watering_window_open_iff :
    (active_start active_end second_of_day : ℕ)
    → active_start < seconds_per_day
    → active_end < seconds_per_day
    → second_of_day < seconds_per_day
    → (watering_window_open active_start active_end second_of_day ≡ true)
      ↔ (seconds_until active_start second_of_day ≤ seconds_until active_start active_end)
unfolding watering_window_open
watering_window_open_iff active_start active_end second_of_day s e t = ground arith
