-- ===== src/SafeQueue/Tests.antt =====
-- Runs of SafeQueue at concrete inputs.
use usbproxy_legacy.Prelude.{ℕ, ◌≡◌, List, [], ◌∷◌, ◌++◌, arith}
use usbproxy_legacy.SafeQueue.{run, run-fifo, Call, put, take}

abbrev calls : List (Call ℕ)
calls = put 7 ∷ take ∷ take ∷ take ∷ put 9 ∷ []

run-fifo_example : (run (5 ∷ []) calls).0 ++ (run (5 ∷ []) calls).1 ≡ 5 ∷ 7 ∷ 9 ∷ []
run-fifo_example = run-fifo (5 ∷ []) calls (omega arith)
