-- ===== src/Blk/Make/Well.antt =====
-- Requests that cover exactly the sectors of their bios, as `__make_request` of
-- ucsb-io/ucsb-io-2.5.67/drivers/block/ll_rw_blk.c keeps them.
use ucsb_disk_profiling.Prelude.{
  ◌≤◌, ℕ, ◌+◌, ◌-◌, ◌<◌, ◌≡◌, refl, some, false, List, [], ◌∷◌, ◌++◌, ◌==◌, arith,
}
use ucsb_disk_profiling.Block.{ulong_mod}
use ucsb_disk_profiling.Blk.Queue.{RequestQueue}
use ucsb_disk_profiling.Segments.{BioVec, StructBio, PhysMap, first, skip, bvec_end, bvec_start}
use ucsb_disk_profiling.Blk.Merge.{StructRequest, sectors_of, last_bio}
use ucsb_disk_profiling.Blk.Merge.Within.{WithinLimits, Touching}

-- Each bio begins where the one before ends, the first at `sector`.
abbrev pub Consecutive : ℕ → List StructBio → Type 0
Consecutive sector [] = Unit
Consecutive sector (b ∷ bs) = (b.bi_sector ≡ sector) × Consecutive (sector + sectors_of b) bs

abbrev pub total_sectors : List StructBio → ℕ
total_sectors [] = 0
total_sectors (b ∷ bs) = sectors_of b + total_sectors bs

-- The bio has its table, with a vector at least.
pub record HasVectors (bio : StructBio) : Type 0 where
  pub table : List BioVec
  pub v1 : BioVec
  pub v2 : BioVec
  pub at_table : bio.bi_io_vec ≡ some table
  pub at_first : first table ≡ some v1
  pub at_last : first (skip (bio.bi_vcnt - 1) table) ≡ some v2
  pub not_empty : (bio.bi_vcnt == 0) ≡ false

abbrev pub AllVectors : List StructBio → Type 0
AllVectors [] = Unit
AllVectors (b ∷ bs) = HasVectors b × AllVectors bs

-- A request in a queue: it has bios, which lie one behind the other and make up its sectors, and its
-- sectors and segments are within the limits of the queue.
pub record IsWell (q : RequestQueue) (req : StructRequest) : Type 0 where
  pub head : StructBio
  pub rest : List StructBio
  pub chain : req.bios ≡ head ∷ rest
  pub consecutive : Consecutive req.sector req.bios
  pub sectors : req.nr_sectors ≡ total_sectors req.bios
  pub hard : req.hard_nr_sectors ≡ req.nr_sectors
  pub no_wrap : req.sector + total_sectors req.bios < ulong_mod
  pub vectors : AllVectors req.bios
  pub sectors_in : req.nr_sectors ≤ q.max_sectors
  pub limits : WithinLimits q req

pub Consecutive-append :
    (sector : ℕ) (xs ys : List StructBio)
    → Consecutive sector xs
    → Consecutive (sector + total_sectors xs) ys
    → Consecutive sector (xs ++ ys)
Consecutive-append sector [] ys c d = let e : sector + 0 ≡ sector = omega arith in rw (← e) d
Consecutive-append sector (x ∷ xs) ys (b, c) d =
    let e : sector + (sectors_of x + total_sectors xs)
        ≡ (sector + sectors_of x) + total_sectors xs =
      omega arith in
    (b, Consecutive-append (sector + sectors_of x) xs ys c (rw (← e) d))

pub total_sectors-append :
    (xs ys : List StructBio) → total_sectors (xs ++ ys) ≡ total_sectors xs + total_sectors ys
total_sectors-append [] ys = omega arith
total_sectors-append (x ∷ xs) ys = omega (arith, total_sectors-append xs ys)

pub AllVectors-append :
    (xs ys : List StructBio) → AllVectors xs → AllVectors ys → AllVectors (xs ++ ys)
AllVectors-append [] ys a b = b
AllVectors-append (x ∷ xs) ys (v, a) b = (v, AllVectors-append xs ys a b)

pub Consecutive-cong :
    (s t : ℕ) (bs cs : List StructBio) → s ≡ t → bs ≡ cs → Consecutive t cs → Consecutive s bs
Consecutive-cong s t bs cs e f c = rw e (rw f c)

pub AllVectors-cong : (bs cs : List StructBio) → bs ≡ cs → AllVectors cs → AllVectors bs
AllVectors-cong bs cs e a = rw e a

-- The last bio of a chain, with its vectors.
pub last_total :
    (head : StructBio) (rest : List StructBio)
    → AllVectors (head ∷ rest)
    → (tail : StructBio) × (last_bio (head ∷ rest) ≡ some tail) × HasVectors tail
last_total head [] (v, a) = (head, refl, v)
last_total head (c ∷ cs) (v, a) = last_total c cs a

pub last_of :
    (bios : List StructBio) (head : StructBio) (rest : List StructBio)
    → bios ≡ head ∷ rest
    → AllVectors bios
    → (tail : StructBio) × (last_bio bios ≡ some tail) × HasVectors tail
last_of bios head rest e = rw e (last_total head rest)

pub first_of :
    (bios : List StructBio) (head : StructBio) (rest : List StructBio)
    → bios ≡ head ∷ rest
    → AllVectors bios
    → (b : StructBio) × (first bios ≡ some b) × HasVectors b
first_of bios head rest e = rw e (λ (a : AllVectors (head ∷ rest)). (head, refl, a.0))

module _ (k : PhysMap) (q : RequestQueue) where
  pub bvec_end_total : (bio : StructBio) (h : HasVectors bio) → bvec_end k q bio ≡ some h.v2
  unfolding bvec_end
  bvec_end_total bio h = ground (arith, h.at_table, h.not_empty, h.at_last)

  pub bvec_start_total : (bio : StructBio) (h : HasVectors bio) → bvec_start k q bio ≡ some h.v1
  unfolding bvec_start
  bvec_start_total bio h = ground (arith, h.at_table, h.at_first)

  -- The vectors of two such requests that would touch.
  pub touching : (req next : StructRequest) → IsWell q req → IsWell q next → Touching k q req next
  touching req next a b =
      let (tail, at_tail, h) = last_of req.bios a.head a.rest a.chain a.vectors in
      let (head, at_head, g) = first_of next.bios b.head b.rest b.chain b.vectors in
      record {
        tail = tail;
        head = head;
        v1 = h.v2;
        v2 = g.v1;
        at_tail = at_tail;
        at_head = at_head;
        at_v1 = bvec_end_total tail h;
        at_v2 = bvec_start_total head g;
      }
