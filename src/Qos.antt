-- ===== src/Qos.antt =====
-- The QoS parameters of a file: the ioctls of ucsb-io/ucsb-io-2.5.67/fs/ioctl.c, the life of `f_qos`
-- in fs/file_table.c, and the pointer that fs/direct-io.c hands to the bio.
pub mod Owned
pub mod Served
pub mod Release
use ucsb_disk_profiling.Prelude.{
  ℕ, ◌≡◌, Option, none, some, Bool, true, false, ℤ, pos, negsuc, ◌==◌, if◌then◌else◌, ◌>>=◌,
}
use ucsb_disk_profiling.Block.{update, Qos, best_effort, soft_rt, UcsbIo, Bio, ucsb_def_priority}

-- What the kernel gives: user memory `M`, whose copies report whether bytes were left, and kmalloc,
-- whose memory has unknown contents and is not in use.
pub record Allocator (M : Type 0) : Type 0 where
  pub copy_to_user : M → ℕ → UcsbIo → M × Bool
  pub copy_from_user : M → ℕ → ℤ → ℤ × Bool
  pub kmalloc : (ℕ → Option UcsbIo) → Option (ℕ × UcsbIo)
  pub kmalloc_fresh :
      (memory : ℕ → Option UcsbIo) (p : ℕ) (q : UcsbIo)
      → kmalloc memory ≡ some (p, q)
      → memory p ≡ none

-- `f_qos` of the open files, and the memory of `struct ucsb_io`.
pub record FileStore : Type 0 where
  pub f_qos : ℕ → Option ℕ
  pub qos : ℕ → Option UcsbIo

pub record Reply (M : Type 0) : Type 0 where
  pub error : ℤ
  pub user : M
  pub store : FileStore

-- The ioctls of `struct ucsb_io`.
pub data Command : Type 0 where
  get_qos set_best_effort set_soft_rt set_priority : Command

-- `? -EFAULT : 0`
abbrev pub efault : Bool → ℤ
efault true = negsuc 13
efault false = pos 0

-- The parameters that `filp->f_qos` points to.
unfoldable pub qos_of : FileStore → ℕ → Option UcsbIo
qos_of s filp = do p ← s.f_qos filp; s.qos p

-- Assignments through `filp->f_qos`.
unfoldable pub edit_qos : FileStore → ℕ → (UcsbIo → UcsbIo) → Option FileStore
edit_qos s filp f = do
  p ← s.f_qos filp
  q ← s.qos p
  some (record s { qos = update s.qos p (some (f q)) })

-- `if (!filp->f_qos)`, with the memory of kmalloc and the assignments to it. NULL is a fault.
unfoldable pub ensure_qos :
    {M : Type 0} → Allocator M → FileStore → ℕ → (UcsbIo → UcsbIo) → Option FileStore
ensure_qos k s filp f = elim (s.f_qos filp) [
  | some p ↦ some s
  | none ↦ do
    (p, q) ← k.kmalloc s.qos
    some (record s { f_qos = update s.f_qos filp (some p); qos = update s.qos p (some (f q)) })
]

-- `copy_from_user` to a field of the parameters.
unfoldable pub copy_field :
    {M : Type 0}
    → Allocator M
    → M
    → FileStore
    → ℕ
    → ℕ
    → (UcsbIo → ℤ)
    → (ℤ → UcsbIo → UcsbIo)
    → Option (Reply M)
copy_field k m s filp arg field assign = do
  q ← qos_of s filp
  let copied = k.copy_from_user m arg (field q)
  store ← edit_qos s filp (assign copied.0)
  some (record { error = efault copied.1; user = m; store = store })

abbrev pub no_qos : UcsbIo
no_qos = record { type = best_effort; priority = pos 0; rate = pos 0; filp = none }

abbrev pub init_best_effort : ℕ → UcsbIo → UcsbIo
init_best_effort filp q = record {
  type = best_effort;
  priority = ucsb_def_priority;
  rate = pos 0;
  filp = some filp;
}

-- UCSB_DEF_PRIORITY+2
abbrev pub init_soft_rt : ℕ → UcsbIo → UcsbIo
init_soft_rt filp q = record q { priority = pos 18; filp = some filp }

abbrev pub init_priority : ℕ → UcsbIo → UcsbIo
init_priority filp q = record q { type = soft_rt; filp = some filp }

-- The cases of `sys_ioctl` for QoS, with `error` 0 from security_file_ioctl.
unfoldable pub ucsb_ioctl :
    {M : Type 0} → Allocator M → M → FileStore → Command → ℕ → ℕ → Option (Reply M)
ucsb_ioctl k m s get_qos filp arg = do
  q ← elim (s.f_qos filp) [ none ↦ some no_qos | some p ↦ s.qos p ]
  let copied = k.copy_to_user m arg q
  some (record { error = efault copied.1; user = copied.0; store = s })
ucsb_ioctl k m s set_best_effort filp arg = do
  store ← elim (s.f_qos filp) [ none ↦ edit_qos s filp (init_best_effort filp) | some p ↦ some s ]
  some (record { error = pos 0; user = m; store = store })
ucsb_ioctl k m s set_soft_rt filp arg = do
  ensured ← ensure_qos k s filp (init_soft_rt filp)
  typed ← edit_qos ensured filp (λ q. record q { type = soft_rt })
  copy_field k m typed filp arg (λ q. q.rate) (λ rate q. record q { rate = rate })
ucsb_ioctl k m s set_priority filp arg = do
  ensured ← ensure_qos k s filp (init_priority filp)
  copy_field k m ensured filp arg (λ q. q.priority) (λ priority q. record q { priority = priority })

unfoldable pub open_private_file : FileStore → ℕ → FileStore
open_private_file s filp = record s { f_qos = update s.f_qos filp none }

unfoldable pub close_private_file : FileStore → ℕ → FileStore
close_private_file s filp = elim (s.f_qos filp) [
  | some p ↦ record s { qos = update s.qos p none }
  | none ↦ s
]

-- `__fput`: the file is freed, and nothing is done with `f_qos`.
unfoldable pub fput_last : FileStore → ℕ → FileStore
fput_last s filp = record s { f_qos = update s.f_qos filp none }

-- `dio_bio_submit`: the bio gets the pointer of the iocb's file, if it has one.
unfoldable pub dio_bio_submit : FileStore → Option ℕ → Bio → Bio
dio_bio_submit s ki_filp bio = record bio { bi_qos = (do filp ← ki_filp; s.f_qos filp) }
