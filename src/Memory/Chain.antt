-- ===== src/Memory/Chain.antt =====
-- kernel/memory.cpp: the linked headers in memory that stand for a list of blocks.
use first_os_build.Prelude.{
  ℕ, zero, suc, ◌+◌, ◌≤◌, ◌<◌, ◌≡◌, ◌≢◌, refl, Bool, List, [], ◌∷◌, ◌++◌, ◌==◌, some, All, arith,
  Bool-cases, inl, inr, length,
}
use first_os_build.Memory.{
  Ptr, null, header_size, BlockMeta, Memory, set_header, load, store, find_free_from,
}
use first_os_build.Memory.Blocks.{Block, Laid, first_fit, before_fit, mark}

abbrev pub meta_of : Block → Ptr → BlockMeta
meta_of b next = record { size = b.size; next = next; is_free = b.free }

-- From `p` the `next` pointers lead through the blocks to null.
pub data Chain (m : Memory) : Ptr → List Block → Type 0 where
  end : Chain m null []
  link :
      {p next : Ptr} {b : Block} {bs : List Block}
      → p ≢ null
      → b.address ≡ p
      → m.header p ≡ some (meta_of b next)
      → Chain m next bs
      → Chain m p (b ∷ bs)

pub load-link :
    (m : Memory) {p : Ptr} {h : BlockMeta} → p ≢ null → m.header p ≡ some h → load p m ≡ some h
unfolding load
load-link m ne e = ground arith

pub store-link :
    (m : Memory) {p : Ptr} {h : BlockMeta} (x : BlockMeta)
    → p ≢ null
    → m.header p ≡ some h
    → store p x m ≡ some (set_header p x m)
unfolding store
store-link m x ne e = rw (load-link m ne e) refl

-- A header that is not on the chain may change.
pub frame-set_header :
    (q : Ptr) (x : BlockMeta) {m : Memory} {p : Ptr} {bs : List Block}
    → Chain m p bs
    → All (λ b. b.address ≢ q) bs
    → Chain (set_header q x m) p bs
frame-set_header q x end out = end
frame-set_header q x (link ne at e c) (h, out) =
    link ne at (ground arith) (frame-set_header q x c out)

pub Laid-above :
    (bs : List Block) (a e : ℕ) {q : ℕ} → Laid a bs e → q < a → All (λ b. b.address ≢ q) bs
Laid-above [] a e l h = tt
Laid-above (b ∷ bs) a e (at, l) h =
    (omega arith, Laid-above bs (a + header_size + b.size) e l (omega arith))

pub Laid-le : (bs : List Block) (a e : ℕ) → Laid a bs e → a ≤ e
Laid-le [] a e l = omega arith
Laid-le (b ∷ bs) a e (at, l) = omega (arith, Laid-le bs (a + header_size + b.size) e l)

pub find_free-fit :
    (fuel n last : ℕ) {m : Memory} {p : Ptr} {bs : List Block}
    → Chain m p bs
    → length bs < fuel
    → find_free_from fuel p last n m ≡ some (first_fit n bs, before_fit n last bs)
unfolding find_free_from first_fit before_fit
find_free-fit zero n last c h = absurd (omega arith)
find_free-fit (suc fuel) n last end h = refl
find_free-fit (suc fuel) n last {m} {p} (link {next} {b} {bs} ne at e c) h =
    ground (arith, load-link m ne e, find_free-fit fuel n p c)

-- Marking a block of the chain in place.
pub mark-Chain :
    (q : Ptr) (f : Bool) {m : Memory} (a e : ℕ) {p : Ptr} {bs : List Block} {h : BlockMeta}
    → Chain m p bs
    → Laid a bs e
    → m.header q ≡ some h
    → Chain (set_header q (record h { is_free = f }) m) p (mark q f bs)
unfolding mark
mark-Chain q f a e end l found = end
mark-Chain q f {m} a e {p} {h} (link {next} {b} {bs} ne at eq c) (at', l) found =
    elim (Bool-cases (b.address == q)) [
      | inl here ↦ rw here (
          link ne at (ground arith) (
            frame-set_header q (record h { is_free = f }) c
              (Laid-above bs (a + header_size + b.size) e l (ground arith))))
      | inr on ↦
          rw on (link ne at (ground arith) (mark-Chain q f (a + header_size + b.size) e c l found))
    ]

-- The address of the last block.
abbrev pub last_address : Block → List Block → Ptr
last_address b [] = b.address
last_address b (c ∷ cs) = last_address c cs

last_address_bounds :
    (b : Block) (bs : List Block) (a e : ℕ)
    → Laid a (b ∷ bs) e
    → (a ≤ last_address b bs) × (last_address b bs + header_size ≤ e)
last_address_bounds b [] a e l = (omega arith, omega arith)
last_address_bounds b (c ∷ cs) a e (at, l) =
    let (lo, hi) = last_address_bounds c cs (a + header_size + b.size) e l in (omega arith, hi)

-- The header of the last block, and the chain once a new block is linked behind it.
pub record Appended (new : Block) (e : ℕ) (m : Memory) (p : Ptr) (b : Block) (bs : List Block)
    : Type 0 where
  pub last : BlockMeta
  pub found : m.header (last_address b bs) ≡ some last
  pub ne_null : last_address b bs ≢ null
  pub ends : last_address b bs + header_size + last.size ≡ e
  pub chain :
      Chain
        (set_header e
          (meta_of new null)
          (set_header (last_address b bs) (record last { next = e }) m))
        p
        (b ∷ bs ++ (new ∷ []))

-- Linking a new block behind the last one.
pub append-Chain :
    (new : Block) {m : Memory} (a e : ℕ) {p : Ptr} (b : Block) (bs : List Block)
    → Chain m p (b ∷ bs)
    → Laid a (b ∷ bs) e
    → new.address ≡ e
    → e ≢ null
    → Appended new e m p b bs
append-Chain new {m} a e {p} b [] (link ne at eq end) l here some_e = record {
  last = meta_of b null;
  found = ground arith;
  ne_null = ground arith;
  ends = omega arith;
  chain = link ne at (ground arith) (link {b = new} some_e here (ground arith) end);
}
append-Chain new {m} a e {p} b (c ∷ cs) (link ne at eq ch) (at', l) here some_e =
    let rest = append-Chain new (a + header_size + b.size) e c cs ch l here some_e in
    let bounds = last_address_bounds c cs (a + header_size + b.size) e l in
    record {
      last = rest.last;
      found = rest.found;
      ne_null = rest.ne_null;
      ends = rest.ends;
      chain = link ne at (ground (arith, eq, bounds)) rest.chain;
    }
