-- ===== src/Buffer/Room.antt =====
-- Growing a buffer: `expand` and `makeRoom()`, which a connection calls before it reads.
use tiny_network_repository.Prelude.{
  ℕ, ◌+◌, ◌-◌, ◌*◌, ◌≤◌, ◌<◌, ◌≡◌, refl, arith, List, ◌++◌, length, take, drop, length-drop,
  length-replicate, replicate, length-append, take-append_ge, append-nil, none, ltb, ltb→lt, max,
  Bool-cases, inl, inr,
}
use tiny_network_repository.Prelude.Outcome.{ok}
use tiny_network_repository.Buffer.{
  Buffer, Cell, size, space, contents, max_alloc, alloc, new_capacity, expand, make_room,
  copy_front,
}
use tiny_network_repository.Buffer.Valid.{IsValid, size_lem, length-contents}

-- A block as `new` leaves it.
abbrev raw : ℕ → List Cell
raw n = replicate n none

alloc_lem : (n : ℕ) → n < max_alloc → alloc n ≡ ok (raw n)
unfolding alloc
alloc_lem n h = ground arith

module _ {b : Buffer} (v : IsValid b) (len : ℕ) (h : b.capacity * 2 < max_alloc)
    (k : size b + len < max_alloc) where
  pub new_capacity_bounds :
      (new_capacity b len < max_alloc)
      × (512 ≤ new_capacity b len)
      × (size b + len ≤ new_capacity b len)
      × (b.capacity * 2 ≤ new_capacity b len)
  unfolding new_capacity
  new_capacity_bounds = omega (arith, size_lem v)

  abbrev grown : Buffer
  grown = record b {
    buf = copy_front (contents b) (raw (new_capacity b len));
    begin = 0;
    end = size b;
    capacity = new_capacity b len;
  }

  expand-eq : expand b len ≡ ok grown
  unfolding expand size
  expand-eq = rw (alloc_lem (new_capacity b len) new_capacity_bounds.0)

  length-copied : length (copy_front (contents b) (raw (new_capacity b len))) ≡ new_capacity b len
  length-copied = omega (
    arith,
    length-append (contents b) (drop (length (contents b)) (raw (new_capacity b len))),
    length-drop (length (contents b)) (raw (new_capacity b len)),
    length-replicate {A = Cell} (new_capacity b len) none,
    length-contents v,
    new_capacity_bounds,
  )

  grown-IsValid : IsValid grown
  grown-IsValid =
      let bounds = new_capacity_bounds in
      let copied = length-copied in ground (arith, size_lem v, v.exp_eq)

  contents-grown : contents grown ≡ contents b
  unfolding contents
  contents-grown =
      rw (take-append_ge shown (contents b) rest (omega (arith, all_shown)))
        (none_left (shown - length (contents b)) (omega (arith, all_shown)))
    where
      shown : ℕ
      shown = size grown

      rest : List Cell
      rest = drop (length (contents b)) (raw (new_capacity b len))

      all_shown : shown ≡ length (contents b)
      all_shown = omega (arith, size_lem grown-IsValid, length-contents v)

      none_left : (n : ℕ) → n ≡ 0 → contents b ++ take n rest ≡ contents b
      none_left n e = rw (e, append-nil)

  -- `expand(len)` keeps the bytes, moves them to the front and leaves room for `len` more.
  pub expand_lem :
      (b' : Buffer) × (expand b len ≡ ok b')
      × IsValid b'
      × (contents b' ≡ contents b)
      × (b'.begin ≡ 0)
      × (b'.end ≡ size b)
      × (b'.capacity ≡ new_capacity b len)
  expand_lem = (grown, expand-eq, grown-IsValid, contents-grown, refl, refl, refl)

-- `makeRoom()`, on a valid buffer whose doubled capacity can be allocated, returns a valid buffer
-- with the same bytes and space for 512 more; its end is not later, and its capacity not more than
-- the old one or twice the old end and 1024.
pub make_room_lem :
    {b : Buffer}
    → IsValid b
    → b.capacity * 2 < max_alloc
    → (b' : Buffer) × (make_room b ≡ ok b')
      × IsValid b'
      × (512 ≤ space b')
      × (contents b' ≡ contents b)
      × (b'.end ≤ b.end)
      × (b'.capacity ≤ max b.capacity (2 * b.end + 1024))
unfolding make_room
make_room_lem {b} v h = elim (Bool-cases (ltb (space b) b.exp)) [
  | inl e ↦
      let small : size b + 0 < max_alloc = omega (arith, size_lem v, v) in
      let (b', eq, v', same, _, at, cap) = expand_lem v 0 h small in
      rw e (
        b',
        eq,
        v',
        enough b' v' at cap small,
        same,
        omega (arith, at, size_lem v),
        bounded b' cap small (ltb→lt (space b) b.exp e),
      )
  | inr e ↦ rw e (b, refl, v, ground (arith, v.exp_eq), refl, omega arith, omega arith)
]
  where
    enough :
        (b' : Buffer)
        → IsValid b'
        → b'.end ≡ size b
        → b'.capacity ≡ new_capacity b 0
        → size b + 0 < max_alloc
        → 512 ≤ space b'
    enough b' v' at cap small =
        unfold space in
        omega (
          arith,
          v'.end_le,
          v'.small,
          at,
          cap,
          v.roomy,
          new_capacity_bounds v 0 h small,
          size_lem v,
        )

    bounded :
        (b' : Buffer)
        → b'.capacity ≡ new_capacity b 0
        → size b + 0 < max_alloc
        → space b < b.exp
        → b'.capacity ≤ max b.capacity (2 * b.end + 1024)
    bounded b' cap small full = unfold space new_capacity in omega (arith, cap, v, size_lem v, full)
