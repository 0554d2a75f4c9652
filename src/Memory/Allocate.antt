-- ===== src/Memory/Allocate.antt =====
-- kernel/memory.cpp: `malloc` against the list of blocks.
use first_os_build.Prelude.{
  ℕ, ◌+◌, ◌%◌, ◌≤◌, ◌<◌, ◌≡◌, ◌≢◌, refl, Bool, false, ◌&&◌, List, [], ◌∷◌, ◌++◌, leb, ◌==◌,
  if◌then◌else◌, some, arith, Bool-cases, inl, inr, length, Returns, returns, subst, sym,
}
use first_os_build.Memory.{
  Ptr, null, header_size, heap_start_address, BlockMeta, Memory, find_free_block, request_space,
  new_block, take_block, malloc,
}
use first_os_build.Memory.Blocks.{Block, Laid, first_fit, before_fit, mark}
use first_os_build.Memory.Chain.{
  Chain, end, link, meta_of, load-link, store-link, Laid-le, find_free-fit, mark-Chain,
  last_address, append-Chain,
}

-- The heap holds the blocks `bs`, from its start to `e`.
pub record IsHeap (m : Memory) (bs : List Block) (e : ℕ) : Type 0 where
  pub starts : m.heap_start ≡ heap_start_address
  pub chain : Chain m heap_start_address bs
  pub laid : Laid heap_start_address bs e

unfoldable pub new_at : ℕ → ℕ → Block
new_at e n = record { address = e; size = n; free = false }

-- What `malloc n` returns, and the blocks and their end after it.
unfoldable pub given : ℕ → ℕ → List Block → Ptr
given n e bs = (if first_fit n bs == null then e else first_fit n bs) + header_size

unfoldable pub blocks_after : ℕ → ℕ → List Block → List Block
blocks_after n e bs =
    if first_fit n bs == null then bs ++ (new_at e n ∷ []) else mark (first_fit n bs) false bs

unfoldable pub end_after : ℕ → ℕ → List Block → ℕ
end_after n e bs = if first_fit n bs == null then e + header_size + n else e

pub Laid-mark :
    (q : Ptr) (f : Bool) (bs : List Block) (a e : ℕ) → Laid a bs e → Laid a (mark q f bs) e
unfolding mark
Laid-mark q f [] a e l = l
Laid-mark q f (b ∷ bs) a e (at, l) = ground (arith, Laid-mark q f bs (a + header_size + b.size) e l)

pub Laid-append :
    (new : Block) (bs : List Block) (a e : ℕ)
    → Laid a bs e
    → new.address ≡ e
    → Laid a (bs ++ (new ∷ [])) (e + header_size + new.size)
Laid-append new [] a e l at = (omega arith, omega arith)
Laid-append new (b ∷ bs) a e (at', l) at =
    (at', Laid-append new bs (a + header_size + b.size) e l at)

-- A fitting block has a header, below the end.
fit-header :
    (n : ℕ) {m : Memory} {p : Ptr} (bs : List Block)
    → Chain m p bs
    → first_fit n bs ≢ null
    → (h : BlockMeta) × (m.header (first_fit n bs) ≡ some h)
unfolding first_fit
fit-header n [] c ne = absurd (ne refl)
fit-header n (b ∷ bs) (link {next} nn at eq c) ne = elim (Bool-cases (b.free && leb n b.size)) [
  | inl fits ↦ (meta_of b next, ground arith)
  | inr not_here ↦ rw not_here (fit-header n bs c (ground arith))
]

pub fit-lt-end :
    (n : ℕ) (bs : List Block) (a e : ℕ)
    → Laid a bs e
    → first_fit n bs ≢ null
    → (a ≤ first_fit n bs) × (first_fit n bs + header_size ≤ e)
unfolding first_fit
fit-lt-end n [] a e l ne = absurd (ne refl)
fit-lt-end n (b ∷ bs) a e (at, l) ne = ground (
  arith,
  Laid-le bs (a + header_size + b.size) e l,
  fit-lt-end n bs (a + header_size + b.size) e l,
)

before_fit-last :
    (n last : ℕ) (b : Block) (bs : List Block) (a e : ℕ)
    → Laid a (b ∷ bs) e
    → a ≢ null
    → first_fit n (b ∷ bs) ≡ null
    → before_fit n last (b ∷ bs) ≡ last_address b bs
unfolding first_fit before_fit
before_fit-last n last b [] a e l ne none_fits = ground arith
before_fit-last n last b (c ∷ cs) a e (at, l) ne none_fits =
    ground (arith, before_fit-last n b.address c cs (a + header_size + b.size) e l)

module _ (n : ℕ) {m : Memory} (bs : List Block) {e : ℕ} (h : IsHeap m bs e)
    (small : e + header_size < 4294967296) where
  take_refines :
      first_fit n bs ≢ null
      → Returns
          (λ (p, m').
            (p ≡ first_fit n bs + header_size)
            × IsHeap m' (mark (first_fit n bs) false bs) e
            × (m'.byte ≡ m.byte))
          (take_block (first_fit n bs) m)
  unfolding take_block
  take_refines ne =
      let (x, eq) = fit-header n bs h.chain ne in
      let bound = fit-lt-end n bs heap_start_address e h.laid ne in
      rw (load-link m ne eq, store-link m (record x { is_free = false }) ne eq)
        (returns (
          omega (arith, bound),
          record {
            starts = h.starts;
            chain = mark-Chain (first_fit n bs) false heap_start_address e h.chain h.laid eq;
            laid = Laid-mark (first_fit n bs) false bs heap_start_address e h.laid;
          },
          refl,
        ))

new_refines :
    (n : ℕ) {m : Memory} (b : Block) (bs : List Block) {e : ℕ}
    → IsHeap m (b ∷ bs) e
    → e + header_size < 4294967296
    → Returns
        (λ (p, m').
          (p ≡ e + header_size)
          × IsHeap m' (b ∷ bs ++ (new_at e n ∷ [])) (e + header_size + n)
          × (m'.byte ≡ m.byte))
        (new_block (last_address b bs) n m)
unfolding new_block request_space new_at
new_refines n {m} b bs {e} h small =
    let some_e : e ≢ null = omega (arith, Laid-le (b ∷ bs) heap_start_address e h.laid) in
    let r = append-Chain (new_at e n) heap_start_address e b bs h.chain h.laid refl some_e in
    let at_end : (last_address b bs + header_size + r.last.size) % 4294967296 ≡ e =
      omega (arith, r.ends) in
    let not_null : (e == null) ≡ false = ground arith in
    let no_wrap : (e + header_size) % 4294967296 ≡ e + header_size = omega arith in
    rw
      (
        load-link m r.ne_null r.found,
        at_end,
        store-link m (record r.last { next = e }) r.ne_null r.found,
        not_null,
        no_wrap,
      )
      (returns (
        refl,
        record {
          starts = h.starts;
          chain = r.chain;
          laid = Laid-append (new_at e n) (b ∷ bs) heap_start_address e h.laid refl;
        },
        refl,
      ))

pub Chain-nil : {m : Memory} {p : Ptr} → Chain m p [] → p ≡ null
Chain-nil end = refl

-- In a heap whose end leaves room below 2 ^ 32 for one more header, `malloc` of a positive size
-- ends within fuel for one round more than there are blocks. It returns the space of the first free
-- block that is large enough, or else of a new block behind the last one, leaves that list of
-- blocks, and changes no byte.
pub malloc_refines :
    (fuel n : ℕ) {m : Memory} (bs : List Block) {e : ℕ}
    → IsHeap m bs e
    → n ≢ 0
    → e + header_size < 4294967296
    → length bs < fuel
    → Returns
        (λ (p, m').
          (p ≡ given n e bs)
          × IsHeap m' (blocks_after n e bs) (end_after n e bs)
          × (m'.byte ≡ m.byte))
        (malloc fuel n m)
unfolding malloc find_free_block given blocks_after end_after
malloc_refines fuel n [] h ne small enough = absurd (omega (arith, Chain-nil h.chain))
malloc_refines fuel n {m} (b ∷ bs) {e} h ne small enough =
    let positive : (n == 0) ≡ false = ground arith in
    let started : (m.heap_start == null) ≡ false = ground arith in
    let chain = subst (λ q. Chain m q (b ∷ bs)) (sym h.starts) h.chain in
    rw (positive, started, find_free-fit fuel n m.heap_start chain enough)
      (elim (Bool-cases (first_fit n (b ∷ bs) == null)) [
        | inl none_fits ↦
            rw
              (
                none_fits,
                before_fit-last n m.heap_start b bs heap_start_address e h.laid (omega arith)
                    (ground arith),
              )
              (new_refines n b bs h small)
        | inr fits ↦ rw fits (take_refines n (b ∷ bs) h small (ground arith))
      ])
