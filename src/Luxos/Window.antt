-- ===== src/Luxos/Window.antt =====
-- pocisys-hash-monitor/services/luxos_control.py, `_low_window`: the daily window on the clock face.
use gauge_umbrel_community.Prelude.{ℕ, ◌+◌, ◌-◌, ◌%◌, ◌<◌, ◌≡◌, arith, ltb}
use gauge_umbrel_community.Luxos.State.{Miner}
use gauge_umbrel_community.Luxos.Schedule.{minutes, low_window}

-- The minutes from `start` forward to `t`, round the clock.
abbrev pub minutes_after : ℕ → ℕ → ℕ
minutes_after start t = (t + 1440 - start) % 1440

-- For times of the day, the window holds exactly the minutes that come, going forward from the low
-- time, before the full time; it is empty where the two agree, and wraps round midnight.
pub low_window-eq-cyclic :
    (m : Miner) (t : ℕ)
    → minutes m.low_time < 1440
    → minutes m.full_time < 1440
    → t < 1440
    → low_window m t
      ≡ ltb
          (minutes_after (minutes m.low_time) t)
          (minutes_after (minutes m.low_time) (minutes m.full_time))
unfolding low_window
low_window-eq-cyclic m t a b c = ground arith
