-- ===== src/TcpConnectionPool/Owned.antt =====
-- Connections are neither lost nor handed out twice.
use mathlib.Core.List
use mathlib.Core.Logic.Or
use native.Mathlib.Bridge.{le_prop, from_ℕ}
use mathlib.Core.List.{
  Perm, Mem, Nodup, Nodup-nil, Nodup-cons, not-mem-nil, mem-cons, append-nil, append_assoc,
  perm_middle,
}
use mathlib.Core.List.Perm
use tiny_network_repository.Prelude.{
  ℕ, zero, suc, ◌+◌, ◌≡◌, refl, sym, ◌∙◌, ap, arith, Bool, List, [], ◌∷◌, ◌++◌, Option, none, some,
  length, length-append, ◌≤◌,
}
use tiny_network_repository.Poller.{CtlCall, Poller}
use tiny_network_repository.TcpConnection.{TcpConnection}
use tiny_network_repository.TcpConnectionPool.{
  TcpConnectionPool, Opening, addresses, create, get_one_tcp_connection, put_one_tcp_connection,
  get_free_size, get_from,
}

-- The pool, the poller and the connections that are out.
pub record Held : Type 0 where
  pub pool : TcpConnectionPool
  pub poller : Poller
  pub out : List ℕ

abbrev pub hand_out : Option ℕ → List ℕ → List ℕ
hand_out none out = out
hand_out (some i) out = i ∷ out

abbrev pub after_take : (CtlCall → Bool) → Opening → Held → Held
after_take ctl_ok o h =
    let (i, s, p) = get_one_tcp_connection ctl_ok o h.pool h.poller in
    record { pool = s; poller = p; out = hand_out i h.out }

abbrev pub after_put : ℕ → List ℕ → Held → Held
after_put i left h =
    let (s, p, closed) = put_one_tcp_connection (some i) h.pool h.poller in
    record { pool = s; poller = p; out = left }

-- A connection is taken, or one that is out is put back.
pub data Step (ctl_ok : CtlCall → Bool) : Held → Held → Type 0 where
  take : (h : Held) (o : Opening) → Step ctl_ok h (after_take ctl_ok o h)
  put :
      (h : Held) (i : ℕ) (left : List ℕ)
      → Perm h.out (i ∷ left)
      → Step ctl_ok h (after_put i left h)

pub data Reach (ctl_ok : CtlCall → Bool) (h : Held) : Held → Type 0 where
  here : Reach ctl_ok h h
  next : {g k : Held} → Reach ctl_ok h g → Step ctl_ok g k → Reach ctl_ok h k

abbrev pub all_of : Held → List ℕ
all_of h = h.pool.free_connection_list ++ h.out

get_from-perm :
    (ctl_ok : CtlCall → Bool) (o : Opening) (free : List ℕ) (s : TcpConnectionPool) (p : Poller)
    (out : List ℕ)
    → s.free_connection_list ≡ free
    → let (i, s', p') = get_from ctl_ok o free s p in
      Perm (s'.free_connection_list ++ hand_out i out) (free ++ out)
get_from-perm ctl_ok o [] s p out e = rw e (Perm.refl _)
get_from-perm ctl_ok o (i ∷ rest) s p out e = perm_middle rest out

Step-perm : {ctl_ok : CtlCall → Bool} {h k : Held} → Step ctl_ok h k → Perm (all_of k) (all_of h)
unfolding get_one_tcp_connection put_one_tcp_connection
Step-perm (take h o) = get_from-perm _ o h.pool.free_connection_list h.pool h.poller h.out refl
Step-perm (put h i left e) =
    let free = h.pool.free_connection_list in
    rw (append_assoc free (i ∷ []) left) (Perm.symm (Perm.append (Perm.refl free) e))

-- However connections are taken and put back, those in the free list and those that are out make up
-- what they made up at first: none is lost, and none is in two places.
pub Reach-perm :
    {ctl_ok : CtlCall → Bool} {h k : Held} → Reach ctl_ok h k → Perm (all_of k) (all_of h)
Reach-perm here = Perm.refl _
Reach-perm (next r st) = Perm.trans (Step-perm st) (Reach-perm r)

mem_addresses : (i n : ℕ) {a : ℕ} → Mem a (addresses i n) → i ≤ a
mem_addresses i zero m = absurd (not-mem-nil m)
mem_addresses i (suc n) {a} m =
    Or.elim le_prop (mem-cons.0 m) (λ e. omega arith)
      (λ r. omega (arith, mem_addresses (i + 1) n r))

Nodup-addresses : (i n : ℕ) → Nodup (addresses i n)
Nodup-addresses i zero = Nodup-nil
Nodup-addresses i (suc n) =
    Nodup-cons.1
      ((λ m. absurd (omega (arith, mem_addresses (i + 1) n m))), Nodup-addresses (i + 1) n)

pub length-addresses : (i n : ℕ) → length (addresses i n) ≡ n
length-addresses i zero = refl
length-addresses i (suc n) = ap suc (length-addresses (i + 1) n)

from_length {ℓ} : {A : Type ℓ} (xs : List A) → from_ℕ (List.length xs) ≡ length xs
from_length [] = refl
from_length (x ∷ xs) = ap suc (from_length xs)

length-perm {ℓ} : {A : Type ℓ} {xs ys : List A} → Perm xs ys → length xs ≡ length ys
length-perm {xs} {ys} p = sym (from_length xs) ∙ ap from_ℕ (Perm.length-eq p) ∙ from_length ys

-- After any taking and putting back from a new pool of n connections, no connection is both free
-- and out, or either of these twice, and the free ones and those that are out are n together.
pub pool_conserves :
    (ctl_ok : CtlCall → Bool) (memory : ℕ → TcpConnection) (n : ℕ) (p : Poller) {k : Held}
    → Reach ctl_ok (record { pool = create memory n; poller = p; out = [] }) k
    → Nodup (all_of k) × (get_free_size k.pool + length k.out ≡ n)
unfolding create get_free_size
pool_conserves ctl_ok memory n p {k} r =
    let same = Reach-perm r in
    (
      Perm.nodup (Perm.symm same) (rw append-nil (Nodup-addresses 0 n)),
      omega (
        arith,
        length-append k.pool.free_connection_list k.out,
        length-perm same,
        ap length (append-nil (addresses 0 n)),
        length-addresses 0 n,
      ),
    )
