-- ===== src/Qos/Release.antt =====
-- The life of QoS parameters past their file: ucsb-io/ucsb-io-2.5.67/fs/file_table.c, and the pointer
-- that fs/direct-io.c hands to bios.
use ucsb_disk_profiling.Prelude.{
  ℕ, ◌≡◌, ◌≢◌, refl, Option, none, some, arith, ==_refl, Option-cases, inl, inr,
}
use ucsb_disk_profiling.Block.{best_effort, Qos, UcsbIo, Bio}
use ucsb_disk_profiling.Qos.{FileStore, qos_of, close_private_file, fput_last, dio_bio_submit}
use ucsb_disk_profiling.Qos.Owned.{IsOwned, owner}
use ucsb_disk_profiling.Deadline.Ucsb.{ucsb_io_type}

abbrev pub type_of : Option UcsbIo → Qos
type_of none = best_effort
type_of (some q) = q.type

-- Where each file owns its parameters, the scheduler reads the type of the file's parameters off a
-- bio that direct I/O submits for it, and best-effort off one of a file without parameters.
pub type-submit :
    (s : FileStore) (filp : ℕ) (bio : Bio)
    → IsOwned s
    → ucsb_io_type s.qos (dio_bio_submit s (some filp) bio) ≡ some (type_of (qos_of s filp))
unfolding ucsb_io_type dio_bio_submit qos_of IsOwned
type-submit s filp bio owned = elim (Option-cases (s.f_qos filp)) [
  | inl e ↦ rw e refl
  | inr (p, e) ↦ let live = owned filp p e in rw (e, live.1) refl
]

-- close_private_file of a file with parameters frees them and leaves those of every other file; to
-- read the type of a bio that the file still has in flight is then a fault.
pub close-frees :
    (s : FileStore) (filp : ℕ) (q : UcsbIo) (bio : Bio)
    → IsOwned s
    → qos_of s filp ≡ some q
    → (ucsb_io_type (close_private_file s filp).qos (dio_bio_submit s (some filp) bio) ≡ none)
      × ((g : ℕ) → g ≢ filp → qos_of (close_private_file s filp) g ≡ qos_of s g)
unfolding ucsb_io_type dio_bio_submit qos_of IsOwned close_private_file
close-frees s filp q bio owned own =
    let pointer = owner s filp q own in
    let live = owned filp pointer.0 pointer.1 in
    (
      ground (arith, pointer.1, ==_refl pointer.0),
      λ g ne. elim (Option-cases (s.f_qos g)) [
        | inl e ↦ ground (arith, e, pointer.1)
        | inr (r, e) ↦
            let before = owned g r e in
            ground (arith, e, pointer.1, before.1, before.2, live.1, live.2)
      ],
    )

-- The last fput of a file with parameters leaves them allocated, with no file that points to them.
pub fput-leaks :
    (s : FileStore) (filp : ℕ) (q : UcsbIo)
    → IsOwned s
    → qos_of s filp ≡ some q
    → (p : ℕ) × ((fput_last s filp).qos p ≡ some q)
      × ((g : ℕ) → (fput_last s filp).f_qos g ≢ some p)
unfolding qos_of IsOwned fput_last
fput-leaks s filp q owned own =
    let pointer = owner s filp q own in
    let live = owned filp pointer.0 pointer.1 in
    (
      pointer.0,
      pointer.2,
      λ g e.
          let before : s.f_qos g ≡ some pointer.0 = ground (arith, e) in
          let same = owned g pointer.0 before in
          ground (arith, e, before, same.1, same.2, live.1, live.2, ==_refl filp),
    )
