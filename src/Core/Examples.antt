-- ===== src/Core/Examples.antt =====
-- The theorems of the core services at concrete inputs.
use fast_kit.Kit.{min, ◌≡◌, none, [], ◌∷◌, arith}
use fast_kit.Core.RateLimit.Window.{passed, passed_window}

passed_window_example : passed 2 60 (100 ∷ 110 ∷ 120 ∷ []) none ≡ min 3 2
passed_window_example = passed_window 2 60 100 (110 ∷ 120 ∷ []) (omega arith, (omega arith, tt))
