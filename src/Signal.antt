-- ===== src/Signal.antt =====
-- include/tiny_signal.h and signal/tiny_signal.cxx: handlers for signals. `handlers` is the map
-- `signalHandlerMap`, and `installed` are the calls of signal and sigaction, which are not looked at
-- for failure. Signal numbers are natural numbers. The text that is printed is left out.
pub mod Registered
mod Tests
use tiny_network_repository.Prelude.{
  ℕ, List, [], ◌∷◌, ◌++◌, Option, none, some, if◌then◌else◌, ◌==◌,
}

pub data SignalLevel : Type 0 where
  low_signal high_signal : SignalLevel

pub record SignalRegister {ℓ} (A : Type ℓ) : Type ℓ where
  pub sig_no : ℕ
  pub sig_handler : A

pub record Signals {ℓ} (A : Type ℓ) : Type ℓ where
  pub handlers : List (SignalRegister A)
  pub installed : List (ℕ × SignalLevel)

abbrev pub find {ℓ} : {A : Type ℓ} → ℕ → List (SignalRegister A) → Option A
find sig_no [] = none
find sig_no (r ∷ rs) =
    let rest = find sig_no rs in if sig_no == r.sig_no then some r.sig_handler else rest

-- `signalHandlerMap[sigNo] = sigHandler`
unfoldable pub assign {ℓ} :
    {A : Type ℓ} → SignalRegister A → List (SignalRegister A) → List (SignalRegister A)
assign r [] = r ∷ []
assign r (s ∷ rs) = let rest = assign r rs in if r.sig_no == s.sig_no then r ∷ rs else s ∷ rest

-- One round of the loop of signalRegiste.
unfoldable pub register_one {ℓ} :
    {A : Type ℓ} → SignalLevel → SignalRegister A → Signals A → Signals A
unfolding assign
register_one level r s = if r.sig_no == 0 then s else record {
  handlers = assign r s.handlers;
  installed = s.installed ++ ((r.sig_no, level) ∷ []);
}

unfoldable pub signal_registe {ℓ} :
    {A : Type ℓ} → SignalLevel → List (SignalRegister A) → Signals A → Signals A
unfolding register_one
signal_registe level [] s = s
signal_registe level (r ∷ rs) s = signal_registe level rs (register_one level r s)

-- signalUniformHandlerHigh and signalUniformHandlerLow: the handler that is called, if any.
unfoldable pub signal_uniform_handler {ℓ} : {A : Type ℓ} → ℕ → Signals A → Option A
signal_uniform_handler sig_no s = find sig_no s.handlers
