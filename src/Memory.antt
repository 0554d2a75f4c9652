-- ===== src/Memory.antt =====
-- kernel/memory.cpp: the allocator. Memory is the block headers at their addresses and the bytes of
-- the blocks. `none` is a read or write through a pointer at which no header stands, or a loop that
-- has not ended within its fuel. `size_t` and addresses have 32 bits; a header has 12 bytes.
mod Tests
pub mod Allocate
pub mod Blocks
pub mod Chain
pub mod Laws
pub mod Free
pub mod Realloc
pub mod Release
use first_os_build.Prelude.{
  ℕ, zero, suc, ◌+◌, ◌-◌, ◌*◌, ◌%◌, ◌^◌, Bool, true, false, not, ◌&&◌, Option, none, some, ltb, leb,
  ◌==◌, if◌then◌else◌, ◌>>=◌, ◌>>◌,
}

abbrev pub heap_start_address : ℕ
heap_start_address = 0x100000

abbrev pub heap_size : ℕ
heap_size = 0x100000

abbrev pub header_size : ℕ
header_size = 12

abbrev pub Ptr : Type 0
Ptr = ℕ

abbrev pub null : Ptr
null = 0

pub record BlockMeta : Type 0 where
  pub size : ℕ
  pub next : Ptr
  pub is_free : Bool

pub record Memory : Type 0 where
  pub heap_start : Ptr
  pub header : Ptr → Option BlockMeta
  pub byte : Ptr → ℕ

abbrev pub set_header : Ptr → BlockMeta → Memory → Memory
set_header p b m = record m { header = λ q. if q == p then some b else m.header q }

-- `*p` for reading
unfoldable pub load : Ptr → Memory → Option BlockMeta
load p m = if p == null then none else m.header p

-- Writes through `p` go to a header that stands.
unfoldable pub store : Ptr → BlockMeta → Memory → Option Memory
unfolding load
store p b m = load p m >> some (set_header p b m)

unfoldable pub memory_init : Memory → Memory
memory_init m =
    set_header heap_start_address
      (record { size = heap_size - header_size; next = null; is_free = true })
      (record m { heap_start = heap_start_address })

-- The loop of `find_free_block` from `current`; it returns `current` and `*last`.
unfoldable pub find_free_from : ℕ → Ptr → Ptr → ℕ → Memory → Option (Ptr × Ptr)
find_free_from zero current last size m = none
find_free_from (suc fuel) current last size m = if current == null then some (null, last) else do
  b ← load current m
  let on = find_free_from fuel b.next current size m
  if b.is_free && leb size b.size then some (current, last) else on

unfoldable pub find_free_block : ℕ → Ptr → ℕ → Memory → Option (Ptr × Ptr)
find_free_block fuel last size m = find_free_from fuel m.heap_start last size m

-- A new header is made behind the last block, wherever that is.
unfoldable pub request_space : Ptr → ℕ → Memory → Option (Ptr × Memory)
request_space last size m = do
  b ← load last m
  let block = (last + header_size + b.size) % 2 ^ 32
  m ← store last (record b { next = block }) m
  some (block, set_header block (record { size = size; next = null; is_free = false }) m)

-- "No free block found - allocate new one"
unfoldable pub new_block : Ptr → ℕ → Memory → Option (Ptr × Memory)
new_block last size m = do
  (block, m) ← request_space last size m
  some (if block == null then null else (block + header_size) % 2 ^ 32, m)

-- "Found free block"
unfoldable pub take_block : Ptr → Memory → Option (Ptr × Memory)
take_block block m = do
  b ← load block m
  m ← store block (record b { is_free = false }) m
  some ((block + header_size) % 2 ^ 32, m)

unfoldable pub malloc : ℕ → ℕ → Memory → Option (Ptr × Memory)
malloc fuel size m = if size == 0 then some (null, m) else do
  let m' = if m.heap_start == null then memory_init m else m
  (block, last) ← find_free_block fuel m'.heap_start size m'
  if block == null then new_block last size m' else take_block block m'

-- "Simple coalescing of adjacent free blocks", from `current`
unfoldable pub coalesce : ℕ → Ptr → Memory → Option Memory
coalesce zero current m = none
coalesce (suc fuel) current m = if current == null then some m else do
  b ← load current m
  if b.next == null then some m else do
    n ← load b.next m
    let merged =
        (store current (record b { size = (b.size + header_size + n.size) % 2 ^ 32; next = n.next })
            m
          >>= coalesce fuel current)
    let on = coalesce fuel b.next m
    if b.is_free && n.is_free then merged else on

unfoldable pub free : ℕ → Ptr → Memory → Option Memory
free fuel ptr m = if ptr == null then some m else do
  let block = (ptr + 2 ^ 32 - header_size) % 2 ^ 32
  b ← load block m
  m ← store block (record b { is_free = true }) m
  coalesce fuel m.heap_start m

-- `while (n--) *d++ = *s++;`
unfoldable pub memcpy : Ptr → Ptr → ℕ → Memory → Memory
memcpy d s zero m = m
memcpy d s (suc n) m =
    memcpy ((d + 1) % 2 ^ 32) ((s + 1) % 2 ^ 32) n
      (record m { byte = λ a. if a == d then m.byte s else m.byte a })

unfoldable pub realloc : ℕ → Ptr → ℕ → Memory → Option (Ptr × Memory)
realloc fuel ptr size m =
    if ptr == null
    then malloc fuel size m
    else if size == 0
    then (free fuel ptr m >>= λ m. some (null, m))
    else (do
      (new_ptr, m) ← malloc fuel size m
      if new_ptr == null then some (null, m) else do
        b ← load ((ptr + 2 ^ 32 - header_size) % 2 ^ 32) m
        m ← free fuel ptr (memcpy new_ptr ptr (if ltb b.size size then b.size else size) m)
        some (new_ptr, m))

unfoldable pub memory_get_total : ℕ
memory_get_total = 64 * 1024 * 1024

unfoldable pub memory_get_free : ℕ
memory_get_free = heap_size - header_size

unfoldable pub memory_allocate : ℕ → ℕ → Memory → Option (Ptr × Memory)
memory_allocate = malloc

unfoldable pub memory_free : ℕ → Ptr → Memory → Option Memory
memory_free = free
