-- ===== src/Deadline/Init.antt =====
-- deadline_init and deadline_exit of ucsb-io/ucsb-io-2.5.67/drivers/block/deadline-iosched.c, with what
-- elevator_init of drivers/block/elevator.c does before.
pub mod Starts
use ucsb_disk_profiling.Prelude.{
  ℕ, ◌+◌, ◌*◌, ◌/◌, ◌<◌, ◌≡◌, ◌⊎◌, inl, inr, refl, Option, none, some, Bool, true, false, not, ◌&&◌,
  ◌||◌, List, [], ◌∷◌, ◌==◌, if◌then◌else◌, ◌>>=◌, count, arith,
}
use ucsb_disk_profiling.Prelude.Tests.{Bool-cases}
use ucsb_disk_profiling.Block.{list_empty, Both, read, write, at, update}
use ucsb_disk_profiling.Kernel.{leaf}
use ucsb_disk_profiling.Deadline.State.{DeadlineData, DeadlineRq}

-- What the pool and kmalloc give: whether the pool is there, both blocks of memory, and the entry of a
-- request.
pub record Memory : Type 0 where
  pub drq_pool : Bool
  pub block : Bool
  pub hash : Bool
  pub entry : ℕ → Bool

-- Whether 0 is returned, the data where it is live, and the requests whose `elevator_private` is set.
pub record Started : Type 0 where
  pub ok : Bool
  pub elevator_data : Option DeadlineData
  pub has_drq : ℕ → Bool

-- The entry of a request behind memset and RB_CLEAR.
abbrev pub blank_drq : DeadlineRq
blank_drq = record {
  rb_key = 0;
  on_rb = false;
  hash_valid_count = 0;
  expires = 0;
  ucsb_flag = false;
}

-- The data as it is filled; the requests, their entries and the QoS parameters are memory of others.
unfoldable pub fresh_data : ℕ → DeadlineData → DeadlineData
fresh_data hz memory = record memory {
  sort_list = record { reads = leaf; writes = leaf };
  fifo_list = record { reads = []; writes = [] };
  next_drq = record { reads = none; writes = none };
  dispatch = [];
  hash = λ bucket. [];
  hash_valid_count = 1;
  batching = 0;
  last_sector = 0;
  starved = 0;
  ucsb_queue = [];
  ucsb_cnt = 0;
  fifo_expire = record { reads = hz / 2; writes = 5 * hz };
  fifo_batch = 16;
  writes_starved = 2;
  front_merges = true;
  last_merge = none;
}

-- The loop over one free list, which ends at the first entry that is not to be had.
unfoldable pub give_drqs : (ℕ → Bool) → List ℕ → DeadlineData → Bool × DeadlineData
give_drqs entry [] dd = (true, dd)
give_drqs entry (rq ∷ rqs) dd =
    let rest =
      give_drqs entry rqs
        (record dd { drqs = update dd.drqs rq blank_drq; has_drq = update dd.has_drq rq true }) in
    if entry rq then rest else (false, dd)

unfoldable pub take_drqs : List ℕ → (ℕ → Bool) → ℕ → Bool
take_drqs [] has_drq = has_drq
take_drqs (rq ∷ rqs) has_drq = take_drqs rqs (update has_drq rq false)

-- `deadline_exit`: the requests that keep an entry. A request on a fifo list is a BUG.
unfoldable pub deadline_exit : Both (List ℕ) → DeadlineData → Option (ℕ → Bool)
unfolding take_drqs
deadline_exit free dd =
    if list_empty (at dd.fifo_list read) && list_empty (at dd.fifo_list write)
    then some (take_drqs free.writes (take_drqs free.reads dd.has_drq))
    else none

unfoldable pub deadline_init : ℕ → Memory → Both (List ℕ) → DeadlineData → Option Started
unfolding fresh_data give_drqs deadline_exit
deadline_init hz m free memory =
    if not m.drq_pool || (not m.block || not m.hash)
    then some (record { ok = false; elevator_data = none; has_drq = memory.has_drq })
    else (let (got_reads, dd) = give_drqs m.entry free.reads (fresh_data hz memory) in
        let (got_writes, dd') = give_drqs m.entry free.writes dd in
        if got_reads && got_writes
        then some (record { ok = true; elevator_data = some dd'; has_drq = dd'.has_drq })
        else (do
          left ← deadline_exit free dd'
          some (record { ok = false; elevator_data = none; has_drq = left })))
