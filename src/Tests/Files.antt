-- ===== src/Tests/Files.antt =====
-- The theorems about the QoS parameters of files, each at a concrete state.
use ucsb_disk_profiling.Prelude.{
  ℕ, ◌≡◌, ◌≢◌, refl, Option, none, some, false, ℤ, pos, ◌==◌, if◌then◌else◌, arith,
}
use ucsb_disk_profiling.Block.{UcsbIo, soft_rt, Bio, read}
use ucsb_disk_profiling.Qos.{
  Allocator, FileStore, set_priority, qos_of, close_private_file, dio_bio_submit,
}
use ucsb_disk_profiling.Qos.Owned.{IsOwned}
use ucsb_disk_profiling.Qos.Served.{Answers, ioctl-Serves}
use ucsb_disk_profiling.Qos.Release.{close-frees}
use ucsb_disk_profiling.Deadline.Ucsb.{ucsb_io_type}

abbrev file_qos : UcsbIo
file_qos = record { type = soft_rt; priority = pos 18; rate = pos 5; filp = some 7 }

-- File 7 owns the parameters at 40; no other file has any.
abbrev files : FileStore
files = record {
  f_qos = λ f. if f == 7 then some 40 else none;
  qos = λ p. if p == 40 then some file_qos else none;
}

-- User memory holds numbers; kmalloc gives address 41 while it is not in use.
abbrev give : Option UcsbIo → Option (ℕ × UcsbIo)
give none = some (41, file_qos)
give (some q) = none

give_free : (o : Option UcsbIo) (p : ℕ) (q : UcsbIo) → give o ≡ some (p, q) → (o ≡ none) × (p ≡ 41)
give_free none p q e = (refl, grind (arith, e))
give_free (some r) p q e = absurd (cc)

abbrev allocator : Allocator (ℕ → ℤ)
allocator = record {
  copy_to_user = λ m a q. ((λ x. if x == a then q.priority else m x), false);
  copy_from_user = λ m a old. (m a, false);
  kmalloc = λ memory. give (memory 41);
  kmalloc_fresh = λ memory p q e. let free = give_free (memory 41) p q e in rw free.1 free.0;
}

abbrev user : ℕ → ℤ
user a = pos a

abbrev bio : Bio
bio = record { bi_sector = 8; bi_size = 512; bi_dir = read; bd_disk = 0; bi_qos = none }

files-IsOwned : IsOwned files
unfolding IsOwned
files-IsOwned filp p e = (file_qos, ground (arith, e), ground (arith, e))

file_qos_of : qos_of files 7 ≡ some file_qos
unfolding qos_of
file_qos_of = refl

ioctl-Serves_example : Answers allocator user files set_priority 7 3 file_qos
ioctl-Serves_example =
    ioctl-Serves allocator user files set_priority 7 3 file_qos files-IsOwned file_qos_of

close-frees_example :
    (ucsb_io_type (close_private_file files 7).qos (dio_bio_submit files (some 7) bio) ≡ none)
    × ((g : ℕ) → g ≢ 7 → qos_of (close_private_file files 7) g ≡ qos_of files g)
close-frees_example = close-frees files 7 file_qos bio files-IsOwned file_qos_of
