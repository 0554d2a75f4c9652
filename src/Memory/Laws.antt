-- ===== src/Memory/Laws.antt =====
-- kernel/memory.cpp: what a caller of `malloc` and `free` may rely on.
use first_os_build.Prelude.{
  ℕ, ◌+◌, ◌≤◌, ◌<◌, ◌≡◌, ◌≢◌, ◌⊎◌, refl, Bool, true, false, ◌&&◌, List, [], ◌∷◌, ◌++◌, leb, ◌==◌,
  arith, Bool-cases, inl, inr, length, Returns, subst, sym, ◌∙◌,
}
use first_os_build.Prelude.Maybe
use first_os_build.Memory.{Ptr, null, header_size, heap_start_address, Memory, malloc}
use first_os_build.Memory.Blocks.{Block, On, Laid, first_fit, mark}
use first_os_build.Memory.Allocate.{IsHeap, new_at, given, blocks_after, end_after, malloc_refines}
use first_os_build.Memory.Release.{On-bounds}

-- Two blocks of the heap with one address are one block.
pub On-unique :
    (b c : Block) (bs : List Block) (a e : ℕ)
    → Laid a bs e
    → On b bs
    → On c bs
    → b.address ≡ c.address
    → b ≡ c
On-unique b c [] a e l ob oc same = absurd ob
On-unique b c (d ∷ ds) a e (at, l) (inl eb) (inl ec) same = eb ∙ sym ec
On-unique b c (d ∷ ds) a e (at, l) (inl eb) (inr oc) same =
    absurd (ground (arith, On-bounds c ds (a + header_size + d.size) e l oc))
On-unique b c (d ∷ ds) a e (at, l) (inr ob) (inl ec) same =
    absurd (ground (arith, On-bounds b ds (a + header_size + d.size) e l ob))
On-unique b c (d ∷ ds) a e (at, l) (inr ob) (inr oc) same =
    On-unique b c ds (a + header_size + d.size) e l ob oc same

-- Two blocks with different addresses do not overlap, headers included.
pub On-apart :
    (b c : Block) (bs : List Block) (a e : ℕ)
    → Laid a bs e
    → On b bs
    → On c bs
    → b.address ≢ c.address
    → (b.address + header_size + b.size ≤ c.address)
      ⊎ (c.address + header_size + c.size ≤ b.address)
On-apart b c [] a e l ob oc ne = absurd ob
On-apart b c (d ∷ ds) a e (at, l) (inl eb) (inl ec) ne = absurd (ground arith)
On-apart b c (d ∷ ds) a e (at, l) (inl eb) (inr oc) ne =
    inl (ground (arith, On-bounds c ds (a + header_size + d.size) e l oc))
On-apart b c (d ∷ ds) a e (at, l) (inr ob) (inl ec) ne =
    inr (ground (arith, On-bounds b ds (a + header_size + d.size) e l ob))
On-apart b c (d ∷ ds) a e (at, l) (inr ob) (inr oc) ne =
    On-apart b c ds (a + header_size + d.size) e l ob oc ne

fit-On :
    (n : ℕ) (bs : List Block)
    → first_fit n bs ≢ null
    → (b : Block) × On b bs × (b.address ≡ first_fit n bs) × (b.free ≡ true) × (n ≤ b.size)
unfolding first_fit
fit-On n [] ne = absurd (ne refl)
fit-On n (b ∷ bs) ne = elim (Bool-cases (b.free && leb n b.size)) [
  | inl fits ↦ (b, inl refl, ground arith, ground arith, ground arith)
  | inr not_here ↦
      let (c, o, at, f, s) = fit-On n bs (ground arith) in rw not_here (c, inr o, at, f, s)
]

pub mark-On_self :
    (b : Block) (f : Bool) (bs : List Block) (a e : ℕ)
    → Laid a bs e
    → On b bs
    → On (record b { free = f }) (mark b.address f bs)
unfolding mark
mark-On_self b f [] a e l o = absurd o
mark-On_self b f (c ∷ cs) a e (at, l) (inl eq) =
    let same : (c.address == b.address) ≡ true = ground arith in rw same (inl (ground arith))
mark-On_self b f (c ∷ cs) a e (at, l) (inr o) =
    let apart : (c.address == b.address) ≡ false =
      ground (arith, On-bounds b cs (a + header_size + c.size) e l o) in
    rw apart (inr (mark-On_self b f cs (a + header_size + c.size) e l o))

pub mark-On_other :
    (c : Block) (q : Ptr) (f : Bool) (bs : List Block)
    → On c bs
    → c.address ≢ q
    → On c (mark q f bs)
unfolding mark
mark-On_other c q f [] o ne = absurd o
mark-On_other c q f (b ∷ bs) (inl eq) ne =
    let apart : (b.address == q) ≡ false = ground arith in rw apart (inl eq)
mark-On_other c q f (b ∷ bs) (inr o) ne = elim (Bool-cases (b.address == q)) [
  | inl here ↦ rw here (inr o)
  | inr on ↦ rw on (inr (mark-On_other c q f bs o ne))
]

On-append : (c : Block) (bs cs : List Block) → On c bs → On c (bs ++ cs)
On-append c [] cs o = absurd o
On-append c (b ∷ bs) cs (inl eq) = inl eq
On-append c (b ∷ bs) cs (inr o) = inr (On-append c bs cs o)

On-append_last : (c : Block) (bs : List Block) → On c (bs ++ (c ∷ []))
On-append_last c [] = inl refl
On-append_last c (b ∷ bs) = inr (On-append_last c bs)

-- What a caller of `malloc n` gets: the space of a block in use, of at least `n` bytes, that was not
-- in use before; and the blocks that were in use are as they were.
pub record Granted (n : ℕ) (bs bs' : List Block) (p : Ptr) : Type 0 where
  pub block : Block
  pub on : On block bs'
  pub space : p ≡ block.address + header_size
  pub large : n ≤ block.size
  pub used : block.free ≡ false
  pub kept : (c : Block) → On c bs → c.free ≡ false → On c bs' × (c.address ≢ block.address)

pub blocks_after-Granted :
    (n e : ℕ) (bs : List Block)
    → Laid heap_start_address bs e
    → Granted n bs (blocks_after n e bs) (given n e bs)
unfolding blocks_after given new_at
blocks_after-Granted n e bs l = elim (Bool-cases (first_fit n bs == null)) [
  | inl none_fits ↦ rw none_fits (record {
    block = new_at e n;
    on = On-append_last (new_at e n) bs;
    space = refl;
    large = omega arith;
    used = refl;
    kept = λ c o u. (
      On-append c bs (new_at e n ∷ []) o,
      omega (arith, On-bounds c bs heap_start_address e l o),
    );
  })
  | inr fits ↦
      let (b, o, at, f, s) = fit-On n bs (ground arith) in
      rw (fits, ← at)
        (record {
          block = record b { free = false };
          on = mark-On_self b false bs heap_start_address e l o;
          space = refl;
          large = s;
          used = refl;
          kept = λ c oc u.
              let ne : c.address ≢ b.address =
                λ same. ground (arith, On-unique c b bs heap_start_address e l oc o same) in
              (mark-On_other c b.address false bs oc ne, ne);
        })
]

-- In a heap whose end leaves room below 2 ^ 32 for a header and `n` bytes more, `malloc` of the positive size
-- `n`, on fuel for one round more than there are blocks, always ends, in a heap that still ends below 2 ^ 32 and
-- grants the caller a block. The `n` bytes of the caller are in the heap, and no block that was in use,
-- its header included, has one of them.
pub malloc-Granted :
    (fuel n : ℕ) {m : Memory} (bs : List Block) {e : ℕ}
    → IsHeap m bs e
    → n ≢ 0
    → e + header_size + n < 4294967296
    → length bs < fuel
    → Returns
        (λ (p, m').
          (bs' : List Block) × (e' : ℕ) × IsHeap m' bs' e'
          × Granted n bs bs' p
          × (p + n ≤ e')
          × (e' < 4294967296)
          × ((c : Block)
              → On c bs
              → c.free ≡ false
              → (c.address + header_size + c.size ≤ p) ⊎ (p + n ≤ c.address)))
        (malloc fuel n m)
unfolding end_after
malloc-Granted fuel n bs {e} h ne small enough =
    Maybe.mono (malloc_refines fuel n bs h ne (omega arith) enough) λ (p, m') (at, heap, bytes).
      let bs' = blocks_after n e bs in
      let g : Granted n bs bs' p =
        subst (Granted n bs bs') (sym at) (blocks_after-Granted n e bs h.laid) in
      let bounds = On-bounds g.block bs' heap_start_address (end_after n e bs) heap.laid g.on in
      (
        bs',
        end_after n e bs,
        heap,
        g,
        omega (arith, bounds, g.space, g.large),
        ground arith,
        λ c o used.
            let (still, other) = g.kept c o used in
            let apart =
              On-apart c g.block bs' heap_start_address (end_after n e bs) heap.laid still g.on
                other in
            omega (arith, apart, g.space, g.large),
      )
