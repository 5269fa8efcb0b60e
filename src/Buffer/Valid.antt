-- ===== src/Buffer/Valid.antt =====
-- The representation invariant of `Buffer`, and the operations that keep it without copying.
use tiny_network_repository.Prelude.{
  ℕ, ◌-◌, ◌≤◌, ◌<◌, ◌≡◌, ◌⊎◌, inl, inr, refl, arith, length, take, drop, length-take, length-drop,
  drop-take, drop-drop, drop_all, Bool-cases, ◌==◌, [], ◌∙◌, sym, true,
}
use mathlib.Core.Path.{ap₂}
use tiny_network_repository.Prelude.Outcome.{add64}
use tiny_network_repository.Buffer.{
  Buffer, fresh, size, space, contents, clear, add_size, consumed, max_alloc,
}

-- A block is never small: it is the null pointer, or holds 512 bytes at least.
pub record IsValid (b : Buffer) : Type 0 where
  pub begin_le : b.begin ≤ b.end
  pub end_le : b.end ≤ b.capacity
  pub block : length b.buf ≡ b.capacity
  pub small : b.capacity < max_alloc
  pub exp_eq : b.exp ≡ 512
  pub roomy : (b.capacity ≡ 0) ⊎ (512 ≤ b.capacity)

pub fresh-IsValid : IsValid fresh
unfolding fresh
fresh-IsValid = ground arith

pub size_lem : {b : Buffer} → IsValid b → size b ≡ b.end - b.begin
unfolding size
size_lem v = omega arith

pub length-contents : {b : Buffer} → IsValid b → length (contents b) ≡ size b
unfolding contents size
length-contents {b} v =
    omega (arith, length-take (size b) (drop b.begin b.buf), length-drop b.begin b.buf)

pub clear-IsValid : {b : Buffer} → IsValid b → IsValid (clear b)
unfolding clear
clear-IsValid v = ground arith

pub add_size-IsValid : {b : Buffer} (n : ℕ) → n ≤ space b → IsValid b → IsValid (add_size b n)
unfolding add_size space
add_size-IsValid n h v = ground arith

-- Consuming at most what is stored keeps the buffer valid, and drops just those bytes.
pub consumed-IsValid : {b : Buffer} (n : ℕ) → n ≤ size b → IsValid b → IsValid (consumed b n)
unfolding consumed size
consumed-IsValid n h v = ground arith

contents-clear : (b : Buffer) → contents (clear b) ≡ []
unfolding contents clear size
contents-clear b = refl

-- Consuming n bytes of a valid buffer that has as many leaves the bytes behind them.
pub contents-consumed :
    {b : Buffer} (n : ℕ) → n ≤ size b → IsValid b → contents (consumed b n) ≡ drop n (contents b)
unfolding consumed
contents-consumed {b} n h v = elim (Bool-cases (size b' == 0)) [
  | inl e ↦ rw e (contents-clear b ∙ sym (drop_all n (contents b) (all_gone e)))
  | inr e ↦ rw e kept
]
  where
    b' : Buffer
    b' = record b { begin = add64 b.begin n }

    all_gone : (size b' == 0) ≡ true → length (contents b) ≤ n
    all_gone e = unfold size in ground (arith, length-contents v)

    kept : contents b' ≡ drop n (contents b)
    kept =
        unfold contents size in
        rw (drop-take n (size b) (drop b.begin b.buf), drop-drop n b.begin b.buf)
          (ap₂ (λ k l. take k (drop l b.buf)) (omega arith) (omega arith))

-- Consuming all that is stored leaves an empty buffer.
pub consumed_all : {b : Buffer} → IsValid b → size (consumed b (size b)) ≡ 0
unfolding consumed size clear
consumed_all v = ground arith
