-- ===== src/Pool.antt =====
-- src/buffer_pool.c and include/tn/buffer_pool.h, and the two functions of src/buffer.c that go
-- through the pool of a buffer. A `tn_buffer_t *` is the index of the buffer in `buffers`; each
-- buffer holds its own block of the allocation.
pub mod Inv
pub mod Peek
pub mod Setup
pub mod Tests
use tcpeen.Base.{
  ℕ, zero, suc, ◌+◌, ◌-◌, ◌*◌, ◌%◌, Bool, true, false, Option, none, some, List, [], ◌∷◌, ◌++◌,
  if◌then◌else◌, get_elem?, u64_mod, add64, sub64, modify, Status, success, error, failed,
}
use tcpeen.Memory.{Memory}
use tcpeen.Bytes.{ByteOps}
use tcpeen.Bytes.Slices.{slice}
use tcpeen.Buffer
use tcpeen.Buffer.{Buffer}
use tcpeen.Queue
use tcpeen.Queue.{Queue}

pub record Pool : Type 0 where
  pub blocks_inuse : ℕ
  pub bytes_inuse : ℕ
  pub block_size : ℕ
  pub block_count : ℕ
  pub buffers : List Buffer
  pub free : Queue

pub push : Pool → ℕ → Status × Pool
push p buffer =
    let (s, q) = Queue.push p.free buffer in
    if failed s then (error, record p { free = q }) else (
      success,
      record p {
        free = q;
        blocks_inuse = sub64 p.blocks_inuse 1;
        bytes_inuse = sub64 p.bytes_inuse p.block_size;
      },
    )

-- `tn_buffer_reset(*out_buffer)`
unfoldable pub reset_at : Option ℕ → Pool → Pool
reset_at none p = p
reset_at (some i) p = record p { buffers = modify p.buffers i Buffer.reset }

pub peek : Pool → Status × Option ℕ × Pool
unfolding reset_at
peek p =
    let (s, out, q) = Queue.peek p.free in
    let p' : Pool = record p { free = q } in
    if failed s then (error, out, p') else (success, out, reset_at out p')

-- The counters after a buffer has left the free queue `q`.
unfoldable pub taken : Pool → Queue → Pool
taken p q = record p {
  free = q;
  blocks_inuse = add64 p.blocks_inuse 1;
  bytes_inuse = add64 p.bytes_inuse p.block_size;
}

pub pop : Pool → Status × Pool
unfolding taken
pop p =
    let (s, q) = Queue.pop p.free in
    if failed s then (error, record p { free = q }) else (success, taken p q)

unfoldable pub pop_cached : Pool → Pool
unfolding taken
pop_cached p = taken p (Queue.pop_cached p.free)

pub pop_back : Pool → Status × Option ℕ × Pool
unfolding taken reset_at
pop_back p =
    let (s, out, q) = Queue.pop_back p.free in
    if failed s
    then (error, out, record p { free = q })
    else (success, out, reset_at out (taken p q))

unfoldable pub cleanup : Pool → Pool
cleanup p = record p {
  blocks_inuse = 0;
  bytes_inuse = 0;
  free = Queue.cleanup p.free;
  buffers = [];
}

module _ (ops : ByteOps) (id : ℕ) (allocation : List ℕ) where
  -- Buffer `i` of the pool `id`: the blocks are handed out from the end of the allocation.
  pub block : Pool → ℕ → Buffer
  block p i =
      let at = (p.block_count - 1 - i) * p.block_size in
      let (s, b) = Buffer.setup ops (slice allocation at p.block_size) p.block_size in
      record b { pool = some id }

  -- The loop of `tn_buffer_pool_setup` from index `i` on, with `rounds` to go. On an error the
  -- buffers are released.
  pub fill : ℕ → ℕ → Pool → Status × Pool
  unfolding block
  fill zero i p = (success, p)
  fill (suc rounds) i p =
      let (s, q) = Queue.push p.free i in
      let p' : Pool = record p { buffers = p.buffers ++ block p i ∷ []; free = q } in
      let rest = fill rounds (i + 1) p' in
      if failed s then (error, record p' { buffers = [] }) else rest

-- `sizeof(tn_buffer_t)`
abbrev pub sizeof_buffer : ℕ
sizeof_buffer = 64

pub setup : ByteOps → Memory → ℕ → Pool → ℕ → ℕ → Status × Pool
unfolding fill
setup ops mem id p block_count block_size =
    let fresh : Pool = record p {
      block_count = block_count;
      block_size = block_size;
      blocks_inuse = 0;
      bytes_inuse = 0;
      buffers = [];
    } in
    elim (mem.bytes (block_count * block_size % u64_mod)) [
      | none ↦ (error, fresh)
      | some allocation ↦
          if mem.structs (block_count * sizeof_buffer % u64_mod)
          then (let (s, q) = Queue.setup mem.words p.free block_count in
              let p' : Pool = record fresh { free = q } in
              if failed s then (error, p') else fill ops id allocation block_count 0 p')
          else (error, fresh)
    ]

-- `tn_buffer_release` of buffer `i` of the pool, and `tn_buffer_capacity`.
pub release : Pool → ℕ → Status × Pool
unfolding push
release p i = elim (get_elem? p.buffers i) [
  | none ↦ (error, p)
  | some b ↦ elim b.pool [ none ↦ (error, p) | some id ↦ push p i ]
]

unfoldable pub buffer_capacity : Pool → ℕ
buffer_capacity p = p.block_size
