-- ===== src/Deadline/Invariant.antt =====
-- The invariant of the two sort lists and the two fifo lists of drivers/block/deadline-iosched.c.
use ucsb_disk_profiling.Prelude.{ℕ, ◌<◌, ◌≡◌, some, true, false, count, Ascending}
use ucsb_disk_profiling.Block.{Dir, read, write, at}
use ucsb_disk_profiling.Kernel.{inorder}
use ucsb_disk_profiling.Deadline.State.{DeadlineData, dir_of, rb_key_of}

-- A request of the scheduler's own lists in one direction.
pub record IsSorted (dd : DeadlineData) (d : Dir) (n : ℕ) : Type 0 where
  pub dir : dir_of dd n ≡ d
  pub on_rb : (dd.drqs n).on_rb ≡ true
  pub no_flag : (dd.drqs n).ucsb_flag ≡ false
  pub has_drq : dd.has_drq n ≡ true
  pub key : rb_key_of dd n ≡ (dd.rqs n).sector
  pub not_dispatched : count n dd.dispatch ≡ 0
  pub not_ucsb : count n dd.ucsb_queue ≡ 0

-- In one direction: the tree is ordered by strictly rising start sectors and holds what the fifo
-- holds, and the next request of a batch is among them.
pub record IsLinked (dd : DeadlineData) (d : Dir) : Type 0 where
  pub sorted : Ascending (rb_key_of dd) 0 (inorder (at dd.sort_list d))
  pub same : (a : ℕ) → count a (inorder (at dd.sort_list d)) ≡ count a (at dd.fifo_list d)
  pub owned : (a : ℕ) → 0 < count a (at dd.fifo_list d) → IsSorted dd d a
  pub next : (a : ℕ) → at dd.next_drq d ≡ some a → 0 < count a (at dd.fifo_list d)

pub record IsValid (dd : DeadlineData) : Type 0 where
  pub reads : IsLinked dd read
  pub writes : IsLinked dd write

pub IsLinked-at : {dd : DeadlineData} → IsValid dd → (d : Dir) → IsLinked dd d
IsLinked-at v read = v.reads
IsLinked-at v write = v.writes

pub IsValid-of : {dd : DeadlineData} → ((d : Dir) → IsLinked dd d) → IsValid dd
IsValid-of h = record { reads = h read; writes = h write }

-- The two scheduling counters do not matter to the lists.
tuned-IsLinked :
    {dd : DeadlineData} (b s : ℕ) (d : Dir)
    → IsLinked dd d
    → IsLinked (record dd { batching = b; starved = s }) d
tuned-IsLinked b s d l = record {
  sorted = l.sorted;
  same = l.same;
  owned = λ a p.
      let o = l.owned a p in
      record {
        dir = o.dir;
        on_rb = o.on_rb;
        no_flag = o.no_flag;
        has_drq = o.has_drq;
        key = o.key;
        not_dispatched = o.not_dispatched;
        not_ucsb = o.not_ucsb;
      };
  next = l.next;
}

pub tuned-IsValid :
    {dd : DeadlineData} (b s : ℕ) → IsValid dd → IsValid (record dd { batching = b; starved = s })
tuned-IsValid b s v = record {
  reads = tuned-IsLinked b s read v.reads;
  writes = tuned-IsLinked b s write v.writes;
}
