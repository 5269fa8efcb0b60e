-- ===== src/Buffer/Append.antt =====
-- `append`: when it adds the bytes, and when it writes past the block.
use native.Mathlib.Decide.{dec_lt}
use tiny_network_repository.Prelude.{
  ℕ, ◌+◌, ◌-◌, ◌*◌, ◌/◌, ◌≤◌, ◌<◌, ◌≡◌, ap, ◌∙◌, arith, List, ◌++◌, length, take, drop, true,
  length-take, length-drop, length-append, take-append_ge, drop-append_le, drop-take, append-nil,
  leb, ltb, Bool-cases, inl, inr, ◌⊎◌,
}
use tiny_network_repository.Prelude.Outcome.{ok, err, out_of_bounds, add64}
use tiny_network_repository.Buffer.{
  Buffer, Cell, size, contents, max_alloc, expand, make_room_for, write_end, append, add_size,
  move_head,
}
use tiny_network_repository.Buffer.Valid.{IsValid, size_lem, length-contents}
use tiny_network_repository.Buffer.Room.{expand_lem, new_capacity_bounds}

-- Writing at `e` extends the window from `s` to `e`.
window_write :
    (m xs r : List Cell) (s e : ℕ)
    → s ≤ e
    → e ≤ length m
    → take (e - s + length xs) (drop s (take e m ++ (xs ++ r))) ≡ take (e - s) (drop s m) ++ xs
window_write m xs r s e h k =
    rw (drop-append_le s (take e m) (xs ++ r) (omega (arith, length-take e m)), drop-take s e m)
      (take-append_ge (e - s + length xs) window (xs ++ r) (omega (arith, window_length))
        ∙ ap (◌++◌ window) rest)
  where
    window : List Cell
    window = take (e - s) (drop s m)

    window_length : length window ≡ e - s
    window_length = omega (arith, length-take (e - s) (drop s m), length-drop s m)

    tail_nil : (n : ℕ) → n ≡ 0 → xs ++ take n r ≡ xs
    tail_nil n z = rw (z, append-nil)

    rest : take (e - s + length xs - length window) (xs ++ r) ≡ xs
    rest =
        let n : e - s + length xs - length window ≡ length xs = omega (arith, window_length) in
        rw n (
          take-append_ge (length xs) xs r (omega arith)
          ∙ tail_nil (length xs - length xs) (omega arith))

module _ {b : Buffer} (v : IsValid b) (xs : List Cell) where
  abbrev pub written : Buffer
  written = record b {
    buf = take b.end b.buf ++ (xs ++ drop (b.end + length xs) b.buf);
    end = add64 b.end (length xs);
  }

  pub written-IsValid : b.end + length xs ≤ b.capacity → IsValid written
  written-IsValid h =
      let copied : length written.buf ≡ b.capacity = omega (
        arith,
        length-append (take b.end b.buf) (xs ++ drop (b.end + length xs) b.buf),
        length-append xs (drop (b.end + length xs) b.buf),
        length-take b.end b.buf,
        length-drop (b.end + length xs) b.buf,
        v,
      ) in
      ground (arith, v.exp_eq)

  pub contents-written : b.end + length xs ≤ b.capacity → contents written ≡ contents b ++ xs
  unfolding contents
  contents-written h =
      rw (written_size, size_lem v)
        (window_write b.buf xs (drop (b.end + length xs) b.buf) b.begin b.end v.begin_le
          (omega (arith, v)))
    where
      written_size : size written ≡ b.end - b.begin + length xs
      written_size = omega (arith, size_lem (written-IsValid h), v)

  pub write_end_lem :
      b.end + length xs ≤ b.capacity
      → write_end b xs
        ≡ ok (record b { buf = take b.end b.buf ++ (xs ++ drop (b.end + length xs) b.buf) })
  unfolding write_end
  write_end_lem h = ground arith

  write_end_overflow : b.capacity < b.end + length xs → write_end b xs ≡ err out_of_bounds
  unfolding write_end
  write_end_overflow h = ground arith

-- `moveHead()` copies the bytes to the front and forgets to take the old `m_begin` off `m_end`.
pub move_head-end :
    {b : Buffer}
    → IsValid b
    → ((move_head b).begin ≡ 0)
      × ((move_head b).end ≡ b.end)
      × ((move_head b).capacity ≡ b.capacity)
unfolding move_head
move_head-end v = omega (arith, v)

move_head-IsValid : {b : Buffer} → IsValid b → IsValid (move_head b)
move_head-IsValid {b} v =
    let ends = move_head-end v in
    let block : length (move_head b).buf ≡ b.capacity = moved in
    let e : (move_head b).exp ≡ 512 = unfold move_head in v.exp_eq in ground (arith, v.roomy)
  where
    moved : length (move_head b).buf ≡ b.capacity
    moved =
        unfold move_head in
        omega (
          arith,
          length-append (contents b) (drop (length (contents b)) b.buf),
          length-drop (length (contents b)) b.buf,
          length-contents v,
          size_lem v,
          v,
        )

-- What `makeRoom(len)` finds or makes: room behind the end, or a reason to move to a larger block.
-- It looks at `m_begin + len`, and at half of the capacity.
abbrev pub HasRoom : Buffer → ℕ → Type 0
HasRoom b n =
    (b.end + n ≤ b.capacity) ⊎ ((b.capacity < b.begin + n) × (b.capacity / 2 ≤ size b + n))

module _ {b : Buffer} (v : IsValid b) (src : List Cell) (n : ℕ) (enough : n ≤ length src)
    (h : b.capacity * 2 < max_alloc) (k : size b + n < max_alloc) where
  abbrev added : List Cell
  added = take n src

  length-added : length added ≡ n
  length-added = omega (arith, length-take n src)

  enough_test : leb n (length src) ≡ true
  enough_test = ground arith

  -- With the room made, `append` copies and moves the end.
  append_into :
      {b' : Buffer} (v' : IsValid b')
      → make_room_for b n ≡ ok b'
      → b'.end + n ≤ b'.capacity
      → append b src n ≡ ok (written v' added)
  unfolding append add_size
  append_into {b'} v' e fits =
      rw (e, enough_test, write_end_lem v' added (omega (arith, length-added))) (rw length-added)

  append_past :
      {b' : Buffer} (v' : IsValid b')
      → make_room_for b n ≡ ok b'
      → b'.capacity < b'.end + n
      → append b src n ≡ err out_of_bounds
  unfolding append
  append_past {b'} v' e past =
      rw (e, enough_test, write_end_overflow v' added (omega (arith, length-added)))

  stays : b.begin + n ≤ b.capacity → make_room_for b n ≡ ok b
  unfolding make_room_for
  stays fits = ground (arith, v.small)

  moves :
      b.capacity < b.begin + n → size b + n < b.capacity / 2 → make_room_for b n ≡ ok (move_head b)
  unfolding make_room_for
  moves far few = ground (arith, v, size_lem v)

  grows : b.capacity < b.begin + n → b.capacity / 2 ≤ size b + n → make_room_for b n ≡ expand b n
  unfolding make_room_for
  grows far many = ground (arith, v, size_lem v)

module _ {b : Buffer} (v : IsValid b) (src : List Cell) (n : ℕ) (enough : n ≤ length src)
    (h : b.capacity * 2 < max_alloc) (k : size b + n < max_alloc) where
  -- On a valid buffer whose doubled capacity, and whose bytes with n more, can be allocated,
  -- `append` of n bytes leaves a valid buffer that holds the old bytes and then the n new ones,
  -- where these fit behind `m_end`, or where `m_begin` + n is past the capacity and the bytes with
  -- n more are at least half of it.
  pub append_lem :
      HasRoom b n
      → (b' : Buffer) × (append b src n ≡ ok b')
        × IsValid b'
        × (contents b' ≡ contents b ++ take n src)
  append_lem (inl fits) =
      let fits' : b.end + length (take n src) ≤ b.capacity = omega (arith, length-take n src) in
      (
        written v (take n src),
        append_into v src n enough h k v (stays v src n enough h k (omega (arith, v.begin_le)))
            fits,
        written-IsValid v (take n src) fits',
        contents-written v (take n src) fits',
      )
  append_lem (inr (far, many)) =
      let (g, e, w, same, at, end_at, cap) = expand_lem v n h k in
      let bounds = new_capacity_bounds v n h k in
      let fits : g.end + n ≤ g.capacity = omega (arith, end_at, cap, bounds) in
      let fits' : g.end + length (take n src) ≤ g.capacity =
        omega (arith, fits, length-take n src) in
      (
        written w (take n src),
        append_into v src n enough h k w (grows v src n enough h k far many ∙ e) fits,
        written-IsValid w (take n src) fits',
        contents-written w (take n src) fits' ∙ ap (λ c. c ++ take n src) same,
      )

  -- On a valid buffer whose doubled capacity, and whose bytes with n more, can be allocated, in all
  -- other cases (n bytes do not fit behind `m_end`, and `m_begin` + n is within the capacity or the
  -- bytes with n more are less than half of it) `append` of n bytes writes past its block.
  pub append_overflow : ¬ HasRoom b n → append b src n ≡ err out_of_bounds
  append_overflow full = elim (dec_lt b.capacity (b.end + n)) [
    | no p ↦ absurd (full (inl (omega arith)))
    | yes past ↦ elim (dec_lt b.capacity (b.begin + n)) [
      | no near ↦ append_past v src n enough h k v (stays v src n enough h k (omega arith)) past
      | yes far ↦ elim (dec_lt (size b + n) (b.capacity / 2)) [
        | no p ↦ absurd (full (inr (far, omega arith)))
        | yes few ↦
            append_past v src n enough h k (move_head-IsValid v) (moves v src n enough h k far few)
              (still past)
      ]
    ]
  ]
    where
      still : b.capacity < b.end + n → (move_head b).capacity < (move_head b).end + n
      still past = omega (arith, move_head-end v, past)

-- `makeRoom(len)` always returns, on a valid buffer.
pub make_room_for_total :
    {b : Buffer} (n : ℕ)
    → IsValid b
    → b.capacity * 2 < max_alloc
    → size b + n < max_alloc
    → (b' : Buffer) × (make_room_for b n ≡ ok b')
unfolding make_room_for
make_room_for_total {b} n v h k =
    let (grown, e, _, _, _, _, _) = expand_lem v n h k in
    elim (Bool-cases (leb (add64 b.begin n) b.capacity)) [
      | inl near ↦ (b, rw near)
      | inr far ↦ elim (Bool-cases (ltb (add64 (size b) n) (b.capacity / 2))) [
        | inl few ↦ (move_head b, rw (far, few))
        | inr many ↦ (grown, rw (far, many) e)
      ]
    ]
