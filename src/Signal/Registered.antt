-- ===== src/Signal/Registered.antt =====
-- Which handler a signal has.
use tiny_network_repository.Prelude.{
  ℕ, ◌≡◌, ◌≢◌, refl, sym, ◌∙◌, ap, arith, false, List, [], ◌∷◌, ◌++◌, Option, some, if◌then◌else◌,
  ◌==◌, Bool-cases, inl, inr, append_assoc, append-nil,
}
use tiny_network_repository.Signal.{
  SignalLevel, SignalRegister, Signals, find, assign, register_one, signal_registe,
  signal_uniform_handler,
}

-- The handler of the last entry for a signal, or the one that it has already.
abbrev pub last_handler {ℓ} : {A : Type ℓ} → ℕ → List (SignalRegister A) → Option A → Option A
last_handler sig_no [] old = old
last_handler sig_no (r ∷ rs) old =
    last_handler sig_no rs (if sig_no == r.sig_no then some r.sig_handler else old)

-- The calls that the entries ask for.
abbrev pub requested {ℓ} :
    {A : Type ℓ} → SignalLevel → List (SignalRegister A) → List (ℕ × SignalLevel)
requested level [] = []
requested level (r ∷ rs) =
    if r.sig_no == 0 then requested level rs else (r.sig_no, level) ∷ requested level rs

find-assign {ℓ} :
    {A : Type ℓ} (sig_no : ℕ) (r : SignalRegister A) (rs : List (SignalRegister A))
    → find sig_no (assign r rs)
      ≡ (if sig_no == r.sig_no then some r.sig_handler else find sig_no rs)
unfolding assign
find-assign sig_no r [] = refl
find-assign sig_no r (s ∷ rs) = elim (Bool-cases (r.sig_no == s.sig_no)) [
  | inl e ↦ rw e (elim (Bool-cases (sig_no == r.sig_no)) [
    | inl f ↦ rw f refl
    | inr f ↦ let g : (sig_no == s.sig_no) ≡ false = ground arith in rw (f, g) refl
  ])
  | inr e ↦ rw e (elim (Bool-cases (sig_no == r.sig_no)) [
    | inl f ↦
        let g : (sig_no == s.sig_no) ≡ false = ground arith in
        rw (g, find-assign sig_no r rs, f) refl
    | inr f ↦ rw (find-assign sig_no r rs, f) refl
  ])
]

module _ {ℓ} {A : Type ℓ} (level : SignalLevel) where
  pub handler_kept :
      (sig_no : ℕ) (r : SignalRegister A) (s : Signals A)
      → sig_no ≢ 0
      → find sig_no (register_one level r s).handlers
        ≡ (if sig_no == r.sig_no then some r.sig_handler else find sig_no s.handlers)
  unfolding register_one
  handler_kept sig_no r s nonzero = elim (Bool-cases (r.sig_no == 0)) [
    | inl e ↦ let g : (sig_no == r.sig_no) ≡ false = ground arith in rw (e, g) refl
    | inr e ↦ rw e (find-assign sig_no r s.handlers)
  ]

  -- After signalRegiste, a signal other than 0 has the handler of the last entry for it, or the one
  -- that it had if there is none; and signal or sigaction is called once, in order and with the
  -- level, for each entry whose signal is not 0.
  pub signal_registe_lem :
      (regs : List (SignalRegister A)) (s : Signals A) (sig_no : ℕ)
      → sig_no ≢ 0
      → let s' = signal_registe level regs s in
        (signal_uniform_handler sig_no s'
          ≡ last_handler sig_no regs (signal_uniform_handler sig_no s))
        × (s'.installed ≡ s.installed ++ requested level regs)
  unfolding signal_registe signal_uniform_handler
  signal_registe_lem [] s sig_no nonzero = (refl, sym (append-nil s.installed))
  signal_registe_lem (r ∷ rs) s sig_no nonzero =
      let (found, calls) = signal_registe_lem rs (register_one level r s) sig_no nonzero in
      (found ∙ ap (last_handler sig_no rs) (handler_kept sig_no r s nonzero), calls ∙ appended r s)
    where
      appended :
          (r : SignalRegister A) (s : Signals A)
          → (register_one level r s).installed ++ requested level rs
            ≡ s.installed ++ requested level (r ∷ rs)
      appended r s = elim (Bool-cases (r.sig_no == 0)) [
        | inl e ↦ rw e refl
        | inr e ↦ rw e (append_assoc s.installed ((r.sig_no, level) ∷ []) (requested level rs))
      ]
