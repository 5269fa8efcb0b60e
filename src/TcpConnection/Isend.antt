-- ===== src/TcpConnection/Isend.antt =====
-- What goes out by `isend`, and what a failing ::write does to it.
use mathlib.Core.Path.{subst}
use native.Mathlib.Decide.{dec_lt}
use tiny_network_repository.Prelude.{
  lt→ltb, ℕ, zero, suc, ◌+◌, ◌-◌, ◌^◌, ◌≤◌, ◌<◌, ◌≡◌, refl, sym, ◌∙◌, ap, arith, min, true, false,
  List, [], ◌∷◌, ◌++◌, some, take, drop, ltb, append_assoc, append-nil, drop-drop,
}
use tiny_network_repository.Prelude.Outcome.{add64}
use tiny_network_repository.Buffer.{Cell}
use tiny_network_repository.TcpConnection.{Errno}
use tiny_network_repository.TcpConnection.Output.{
  WriteResult, wrote, failed, Sent, isend, isend_loop, minus_one, as_size, taken,
}

-- The script takes `n` bytes in all, some by each call.
abbrev pub Takes : ℕ → List WriteResult → Type 0
Takes n [] = n ≡ 0
Takes n (wrote k ∷ rs) = (0 < k) × Takes (n - k) rs
Takes n (failed e ∷ rs) = ⊥

take-split : (k n : ℕ) (xs : List Cell) → k ≤ n → take k xs ++ take (n - k) (drop k xs) ≡ take n xs
take-split zero n xs h = ap (λ j. take j xs) (omega arith)
take-split (suc k) zero xs h = absurd (omega arith)
take-split (suc k) (suc n) [] h = nil_case (suc n - suc k)
  where
    nil_case : (j : ℕ) → take {A = Cell} j [] ≡ []
    nil_case zero = refl
    nil_case (suc j) = refl
take-split (suc k) (suc n) (x ∷ xs) h =
    let e : suc n - suc k ≡ n - k = omega arith in
    rw e (ap (◌∷◌ x) (take-split k n xs (omega arith)))

module _ (buf : List Cell) (len : ℕ) (lt : len < 2 ^ 64) where
  abbrev all_sent : Sent → Sent
  all_sent s = record s { nsend = len; wire = s.wire ++ take (len - s.nsend) (drop s.nsend buf) }

  all_sent-done : (s : Sent) → s.nsend ≡ len → s ≡ all_sent s
  all_sent-done s e = λ i. record s { nsend = e i; wire = same i }
    where
      same : s.wire ≡ s.wire ++ take (len - s.nsend) (drop s.nsend buf)
      same = let z : len - s.nsend ≡ 0 = omega arith in rw z (sym (append-nil s.wire))

  abbrev advanced : Sent → ℕ → Sent
  advanced s m = record s { nsend = s.nsend + m; wire = s.wire ++ take m (drop s.nsend buf) }

  all_sent-advanced : (s : Sent) (m : ℕ) → s.nsend + m ≤ len → all_sent (advanced s m) ≡ all_sent s
  all_sent-advanced s m h = λ i. record s { nsend = len; wire = same i }
    where
      rest : len - (s.nsend + m) ≡ len - s.nsend - m
      rest = omega arith

      same :
          (s.wire ++ take m (drop s.nsend buf))
            ++ take (len - (s.nsend + m)) (drop (s.nsend + m) buf)
          ≡ s.wire ++ take (len - s.nsend) (drop s.nsend buf)
      same =
          rw (append_assoc s.wire, rest, ← drop-drop m s.nsend buf)
            (ap (◌++◌ s.wire) (take-split m (len - s.nsend) (drop s.nsend buf) (omega arith)))

  -- Where every call of ::write takes some bytes until none are left, the loop reports the length
  -- and has sent just the bytes of the buffer, in order.
  isend_loop_complete :
      (s : Sent) (rs : List WriteResult)
      → s.nsend ≤ len
      → Takes (len - s.nsend) rs
      → isend_loop buf len s rs ≡ some (all_sent s)
  unfolding isend_loop
  isend_loop_complete s [] le done =
      let test : ltb s.nsend len ≡ false = ground arith in
      rw test (ap some (all_sent-done s (omega arith)))
  isend_loop_complete s (failed e ∷ rs) le t = absurd t
  isend_loop_complete s (wrote k ∷ rs) le (pos_k, t) = elim (dec_lt s.nsend len) [
    | yes more ↦
        let m : ℕ = min k (len - s.nsend) in
        let test : ltb s.nsend len ≡ true = ground arith in
        let some_taken : ltb 0 (min k (len - s.nsend)) ≡ true = lt→ltb 0 _ (omega arith) in
        let no_wrap : add64 s.nsend (min k (len - s.nsend)) ≡ s.nsend + min k (len - s.nsend) =
          omega arith in
        let left : len - s.nsend - k ≡ len - (s.nsend + min k (len - s.nsend)) = omega arith in
        rw (test, some_taken, no_wrap)
          (isend_loop_complete (advanced s m) rs (omega arith) (subst (λ n. Takes n rs) left t)
            ∙ ap some (all_sent-advanced s m (omega arith)))
    | no done ↦
        let test : ltb s.nsend len ≡ false = ground arith in
        rw test (ap some (all_sent-done s (omega arith)))
  ]

-- The branch for a full send buffer is never taken.
isend_loop-event :
    (buf : List Cell) (len : ℕ) (s : Sent) (rs : List WriteResult) {t : Sent}
    → isend_loop buf len s rs ≡ some t
    → t.event_mode ≡ s.event_mode
unfolding isend_loop
isend_loop-event buf len s [] h = ground arith
isend_loop-event buf len s (r ∷ rs) {t = u} h =
    let wd = as_size r (len - s.nsend) in
    ground (
      arith,
      isend_loop-event buf len
          (record s { nsend = add64 s.nsend wd; wire = s.wire ++ taken buf len s.nsend r }) rs
          {t = u},
    )

pub isend-event :
    (buf : List Cell) (len : ℕ) (rs : List WriteResult) {t : Sent}
    → isend buf len rs ≡ some t
    → t.event_mode ≡ false
unfolding isend
isend-event buf len rs h =
    isend_loop-event buf len (record { nsend = 0; wire = []; event_mode = false }) rs h

-- Where the first call of ::write for a buffer that is not empty fails, for whatever reason, isend
-- reports 2^64 - 1 bytes and nothing went out.
pub isend_failed :
    (buf : List Cell) (len : ℕ) (e : Errno) (rs : List WriteResult)
    → 0 < len
    → len < 2 ^ 64
    → isend buf len (failed e ∷ rs)
      ≡ some (record { nsend = minus_one; wire = []; event_mode = false })
unfolding isend isend_loop
isend_failed buf len e [] h lt = ground arith
isend_failed buf len e (r ∷ rs) h lt = ground arith

-- The loop takes a failure for a count: `nsend` falls by one, and the loop goes on.
isend_loop-failed :
    (buf : List Cell) (len : ℕ) (s : Sent) (e : Errno) (rs : List WriteResult)
    → 0 < s.nsend
    → s.nsend < len
    → len < 2 ^ 64
    → isend_loop buf len s (failed e ∷ rs)
      ≡ isend_loop buf len (record s { nsend = s.nsend - 1; wire = s.wire ++ [] }) rs
unfolding isend_loop
isend_loop-failed buf len s e rs some_sent more lt =
    let test : ltb s.nsend len ≡ true = ground arith in
    let back : add64 s.nsend minus_one ≡ s.nsend - 1 = omega arith in rw (test, back)

pub isend_complete :
    (buf : List Cell) (len : ℕ) (rs : List WriteResult)
    → len < 2 ^ 64
    → Takes len rs
    → isend buf len rs ≡ some (record { nsend = len; wire = take len buf; event_mode = false })
unfolding isend
isend_complete buf len rs lt t =
    let all : len - 0 ≡ len = omega arith in
    isend_loop_complete buf len lt (record { nsend = 0; wire = []; event_mode = false }) rs
      (omega arith) (subst (λ n. Takes n rs) (sym all) t)
    ∙ ap (λ n. some (record { nsend = len; wire = take n buf; event_mode = false })) all

-- Where ::write takes k bytes, more than none and fewer than all, then fails, then takes the rest
-- from byte k - 1 on, isend reports the length of the buffer, but byte k - 1 went out a second
-- time.
pub isend_repeats :
    (buf : List Cell) (len k : ℕ) (e : Errno) (rs : List WriteResult)
    → 0 < k
    → k < len
    → len < 2 ^ 64
    → Takes (len - (k - 1)) rs
    → isend buf len (wrote k ∷ failed e ∷ rs)
      ≡ some (record {
        nsend = len;
        wire = take k buf ++ take (len - (k - 1)) (drop (k - 1) buf);
        event_mode = false;
      })
unfolding isend
isend_repeats buf len k e rs pos_k less lt t =
    first
    ∙ isend_loop-failed buf len sent e rs pos_k less lt
    ∙ isend_loop_complete buf len lt (record sent { nsend = k - 1; wire = take k buf ++ [] }) rs
        (omega arith) t
    ∙ ap
        (λ w. some (record {
          nsend = len;
          wire = w ++ take (len - (k - 1)) (drop (k - 1) buf);
          event_mode = false;
        }))
        (append-nil (take k buf))
  where
    sent : Sent
    sent = record { nsend = k; wire = take k buf; event_mode = false }

    first :
        isend_loop buf len
          (record { nsend = 0; wire = []; event_mode = false })
          (wrote k ∷ failed e ∷ rs)
        ≡ isend_loop buf len sent (failed e ∷ rs)
    first =
        unfold isend_loop in
        (let test : ltb 0 len ≡ true = ground arith in
          let some_taken : ltb 0 (min k (len - 0)) ≡ true = lt→ltb 0 _ (omega arith) in
          let m : min k (len - 0) ≡ k = omega arith in
          let no_wrap : add64 0 k ≡ k = omega arith in rw (test, some_taken, m, no_wrap))
