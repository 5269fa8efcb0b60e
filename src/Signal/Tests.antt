-- ===== src/Signal/Tests.antt =====
-- Two handlers for one signal, and an entry without a signal.
use tiny_network_repository.Prelude.{ℕ, ◌≡◌, arith, List, [], ◌∷◌, some}
use tiny_network_repository.Signal.{
  SignalRegister, Signals, high_signal, signal_registe, signal_uniform_handler,
}
use tiny_network_repository.Signal.Registered.{signal_registe_lem}

abbrev entry : ℕ → ℕ → SignalRegister ℕ
entry sig_no handler = record { sig_no = sig_no; sig_handler = handler }

abbrev entries : List (SignalRegister ℕ)
entries = entry 2 10 ∷ entry 0 20 ∷ entry 2 30 ∷ []

abbrev before : Signals ℕ
before = record { handlers = entry 15 40 ∷ []; installed = [] }

signal_registe_lem_example :
    (signal_uniform_handler 2 (signal_registe high_signal entries before) ≡ some 30)
    × ((signal_registe high_signal entries before).installed
        ≡ (2, high_signal) ∷ (2, high_signal) ∷ [])
unfolding signal_uniform_handler
signal_registe_lem_example =
    signal_registe_lem high_signal entries before 2 (λ e. absurd (omega arith))
