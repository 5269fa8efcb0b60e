-- ===== src/Buffer.antt =====
-- include/tiny_buffer.h and net/tiny_buffer.cxx: the byte buffer of a connection and of a report.
-- A cell of a block is a byte, or none where nothing was written since `new`. `buf` is the whole
-- block that `m_buf` points at ([] for the null pointer), and indices into it wrap as `size_t`.
-- A copy that would leave its block is the error out_of_bounds; `new` of more than PTRDIFF_MAX
-- bytes throws, and a smaller one is taken to succeed.
pub mod Valid
pub mod Room
pub mod Append
pub mod Move
mod Tests
use tiny_network_repository.Prelude.{
  ℕ, ◌+◌, ◌-◌, ◌*◌, ◌/◌, ◌%◌, ◌^◌, max, Bool, List, [], ◌++◌, Option, none, length, take, drop,
  replicate, if◌then◌else◌, ltb, leb, ◌==◌,
}
use tiny_network_repository.Prelude.Outcome.{
  Outcome, ok, err, out_of_bounds, bad_alloc, ◌>>=◌, add64, sub64,
}

abbrev pub Cell : Type 0
Cell = Option ℕ

pub record Buffer : Type 0 where
  pub buf : List Cell
  pub begin : ℕ
  pub end : ℕ
  pub capacity : ℕ
  pub exp : ℕ

-- Buffer::Buffer()
unfoldable pub fresh : Buffer
fresh = record { buf = []; begin = 0; end = 0; capacity = 0; exp = 512 }

unfoldable pub size : Buffer → ℕ
size b = sub64 b.end b.begin

unfoldable pub is_empty : Buffer → Bool
is_empty b = b.begin == b.end

unfoldable pub space : Buffer → ℕ
space b = sub64 b.capacity b.end

unfoldable pub clear : Buffer → Buffer
clear b = record b { buf = []; begin = 0; end = 0; capacity = 0 }

-- What `data()` points at: the block from `m_begin` on.
abbrev pub from_data : Buffer → List Cell
from_data b = drop b.begin b.buf

-- The stored bytes, from `begin()` to `end()`.
unfoldable pub contents : Buffer → List Cell
unfolding size
contents b = take (size b) (from_data b)

unfoldable pub add_size : Buffer → ℕ → Buffer
add_size b len = record b { end = add64 b.end len }

unfoldable pub consumed : Buffer → ℕ → Buffer
unfolding size clear
consumed b len =
    let b' = record b { begin = add64 b.begin len } in if size b' == 0 then clear b' else b'

abbrev pub max_alloc : ℕ
max_alloc = 2 ^ 63

-- `new char[n]`
unfoldable pub alloc : ℕ → Outcome (List Cell)
alloc n = if ltb n max_alloc then ok (replicate n none) else err bad_alloc

unfoldable pub new_capacity : Buffer → ℕ → ℕ
unfolding size
new_capacity b len = max b.exp (max ((b.capacity * 2) % 2 ^ 64) (add64 (size b) len))

-- `copy(begin(), end(), block)`: the bytes go to the front of the block.
abbrev pub copy_front : List Cell → List Cell → List Cell
copy_front xs block = xs ++ drop (length xs) block

unfoldable pub expand : Buffer → ℕ → Outcome Buffer
unfolding alloc new_capacity contents
expand b len = do
  p ← alloc (new_capacity b len)
  ok (record b {
    buf = copy_front (contents b) p;
    begin = 0;
    end = sub64 b.end b.begin;
    capacity = new_capacity b len;
  })

-- `m_begin` is 0 already when it is taken from `m_end`.
unfoldable pub move_head : Buffer → Buffer
unfolding contents
move_head b =
    let b' = record b { buf = copy_front (contents b) b.buf; begin = 0 } in
    record b' { end = sub64 b'.end b'.begin }

-- makeRoom()
unfoldable pub make_room : Buffer → Outcome Buffer
unfolding space expand
make_room b = if ltb (space b) b.exp then expand b 0 else ok b

-- makeRoom(len)
unfoldable pub make_room_for : Buffer → ℕ → Outcome Buffer
unfolding size expand move_head
make_room_for b len =
    if leb (add64 b.begin len) b.capacity
    then ok b
    else if ltb (add64 (size b) len) (b.capacity / 2)
    then ok (move_head b)
    else expand b len

-- `memcpy` to `end()`: the block is written from index `m_end` on.
unfoldable pub write_end : Buffer → List Cell → Outcome Buffer
write_end b xs =
    if leb (b.end + length xs) b.capacity
    then ok (record b { buf = take b.end b.buf ++ (xs ++ drop (b.end + length xs) b.buf) })
    else err out_of_bounds

-- append(data, len) reads `len` cells at `data`, where `src` is the block from `data` on.
unfoldable pub append : Buffer → List Cell → ℕ → Outcome Buffer
unfolding make_room_for write_end add_size
append b src len = do
  b' ← make_room_for b len
  b'' ← if leb len (length src) then write_end b' (take len src) else err out_of_bounds
  ok (add_size b'' len)

-- Buffer(Buffer&& b): the new buffer, and what is left of the source.
unfoldable pub move_from : Buffer → Buffer × Buffer
unfolding clear
move_from b = (
  record { buf = b.buf; begin = b.begin; end = b.end; capacity = b.capacity; exp = b.exp },
  clear (record b { buf = [] }),
)

-- a = std::move(b), for two buffers: `m_exp` stays, and the swapped block of `b` is freed.
unfoldable pub move_assign : Buffer → Buffer → Buffer × Buffer
unfolding clear
move_assign a b =
    let a' = clear a in
    (
      record a' { buf = b.buf; begin = b.begin; end = b.end; capacity = b.capacity },
      clear (record b { buf = a'.buf }),
    )
