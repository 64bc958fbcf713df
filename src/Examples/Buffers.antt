-- ===== src/Examples/Buffers.antt =====
-- Message buffers and payload strategies at concrete sizes.
use msg_perf_tool.Base.{◌+◌, ◌-◌, ◌≤◌, ◌<◌, refl, some, [], ◌∷◌, arith}
use msg_perf_tool.Content.{Content, IsValid}
use msg_perf_tool.Strategy.{variable_load, variable_bounds}
use msg_perf_tool.Strategy.Sizes.{spread, IsFilledFor, variable_load-bounds}

abbrev three : Content
three = record { bytes = some (0 ∷ 0 ∷ 0 ∷ []); capacity = 3; size = 0 }

abbrev nought : Content
nought = record { bytes = some []; capacity = 0; size = 0 }

-- A buffer for messages of 2 bytes, which has room for 3.
three-IsFilledFor : IsFilledFor 2 three
three-IsFilledFor = (record { owned = (0 ∷ 0 ∷ 0 ∷ [], refl, refl); fits = omega arith }, refl)

variable_load-bounds_example :
    let loaded = (variable_load (variable_bounds 2) 12345 three).0 in
    IsValid loaded × (2 - spread 2 ≤ loaded.size) × (loaded.size < 2 + spread 2)
variable_load-bounds_example =
    variable_load-bounds 2 12345 three (omega arith) (omega arith) three-IsFilledFor
