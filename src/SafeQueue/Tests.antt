-- ===== src/SafeQueue/Tests.antt =====
-- Runs of the queue, and the theorems at concrete queues.
use tiny_network_repository.Prelude.{ℕ, ◌≡◌, refl, false, List, [], ◌∷◌}
use tiny_network_repository.SafeQueue.{SafeQueue, Moment, create, push, exit, pop_wait, wait_ready}
use tiny_network_repository.SafeQueue.Order.{
  Op, pushing, popping, exiting, IsOrdered, performs, first_in_first_out,
}

abbrev ops : List (Op ℕ)
ops = pushing 4 ∷ pushing 5 ∷ pushing 6 ∷ popping ∷ pushing 7 ∷ exiting ∷ pushing 8 ∷ []

-- The third push finds the queue full, the last one finds it at its end.
accepted :
    (performs (record { queue = create 2; accepted = []; taken = [] }) ops).accepted
    ≡ 4 ∷ 5 ∷ 7 ∷ []
unfolding create push exit pop_wait wait_ready
accepted = refl

first_in_first_out_example :
    IsOrdered 2 (performs (record { queue = create 2; accepted = []; taken = [] }) ops)
first_in_first_out_example = first_in_first_out 2 ops

abbrev holding_four : SafeQueue ℕ
holding_four = record { items = 4 ∷ []; capacity = 0; exit_flag = false }

abbrev nothing : SafeQueue ℕ
nothing = record { items = []; capacity = 0; exit_flag = false }

-- A wake-up for nothing, and one with an item.
abbrev later : List (Moment ℕ)
later =
    record { queue = nothing; timed_out = false }
    ∷ record { queue = holding_four; timed_out = false }
    ∷ []
