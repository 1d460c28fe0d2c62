-- ===== src/Block.antt =====
-- The data that the block layer's files share: directions, bios, requests, and the QoS parameters of
-- ucsb-io/ucsb-io-2.5.67/include/linux/ucsb_io.h and bio.h. Pointers are numbers, NULL is `none`.
use ucsb_disk_profiling.Prelude.{
  List, [], ◌∷◌, true, ℕ, ◌^◌, ◌/◌, ◌≡◌, refl, Bool, false, Option, none, some, ℤ, pos, ◌==◌,
  if◌then◌else◌,
}

-- The macro of <linux/list.h>, also for a chain.
abbrev pub list_empty {ℓ} : {A : Type ℓ} → List A → Bool
list_empty [] = true
list_empty (x ∷ xs) = false

-- READ and WRITE, the low bit of `rq->flags` and of `bio->bi_rw`.
pub data Dir : Type 0 where
  read write : Dir

-- An array indexed by direction.
pub record Both {ℓ} (A : Type ℓ) : Type ℓ where
  pub reads : A
  pub writes : A

abbrev pub at {ℓ} : {A : Type ℓ} → Both A → Dir → A
at b read = b.reads
at b write = b.writes

abbrev pub put {ℓ} : {A : Type ℓ} → Both A → Dir → A → Both A
put b read a = record b { reads = a }
put b write a = record b { writes = a }

pub at-put_self {ℓ} : {A : Type ℓ} (b : Both A) (d : Dir) (a : A) → at (put b d a) d ≡ a
at-put_self b read a = refl
at-put_self b write a = refl

-- Memory indexed by pointers.
abbrev pub update {ℓ} : {V : Type ℓ} → (memory : ℕ → V) (pointer : ℕ) → V → ℕ → V
update memory pointer value p = if p == pointer then value else memory p

-- `unsigned int`, and `unsigned long` and `sector_t` of a 64-bit machine.
abbrev pub uint_mod : ℕ
uint_mod = 2 ^ 32

abbrev pub ulong_mod : ℕ
ulong_mod = 2 ^ 64

-- `enum ucsb_QoS`
pub data Qos : Type 0 where
  best_effort soft_rt hard_rt preempt : Qos

-- `struct ucsb_io`
pub record UcsbIo : Type 0 where
  pub type : Qos
  pub priority : ℤ
  pub rate : ℤ
  pub filp : Option ℕ

-- UCSB_DEF_PRIORITY
abbrev pub ucsb_def_priority : ℤ
ucsb_def_priority = pos 16

-- `struct bio`, with the fields that the schedulers read. `bi_qos` is a pointer into the memory of
-- `UcsbIo`, shared with the file that the request comes from.
pub record Bio : Type 0 where
  pub bi_sector : ℕ
  pub bi_size : ℕ
  pub bi_dir : Dir
  pub bd_disk : ℕ
  pub bi_qos : Option ℕ

abbrev pub bio_sectors : Bio → ℕ
bio_sectors b = b.bi_size / 2 ^ 9

-- `struct request`, with the fields and flag bits that the schedulers use.
pub record Request : Type 0 where
  pub sector : ℕ
  pub nr_sectors : ℕ
  pub dir : Dir
  pub cmd : Bool
  pub started : Bool
  pub nomerge : Bool
  pub hardbarrier : Bool
  pub softbarrier : Bool
  pub waiting : Bool
  pub special : Bool
  pub rq_disk : ℕ
  pub bio : Option Bio

-- A pointer compared with the address of `n`.
abbrev pub points_to : Option ℕ → ℕ → Bool
points_to none n = false
points_to (some m) n = m == n

-- `insert_here`, a place in the dispatch queue: NULL, the list's head, or an entry.
pub data Position : Type 0 where
  null : Position
  list_head : Position
  entry : ℕ → Position
