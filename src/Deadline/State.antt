-- ===== src/Deadline/State.antt =====
-- The state of the deadline scheduler: `struct deadline_data` of
-- ucsb-io/ucsb-io-2.5.67/drivers/block/deadline-iosched.c, the part of the request queue that it
-- uses, and the memory that it reaches. A request and its `struct deadline_rq` share one number.
use ucsb_disk_profiling.Prelude.{ℕ, Option, Bool, List, ℤ, some, ◌>>=◌}
use ucsb_disk_profiling.Block.{Dir, Both, put, update, Request, UcsbIo}
use ucsb_disk_profiling.Kernel.{Tree}

-- `struct deadline_rq`. `on_rb` is ON_RB, and membership of `fifo` and `hash` is that of the lists.
pub record DeadlineRq : Type 0 where
  pub rb_key : ℕ
  pub on_rb : Bool
  pub hash_valid_count : ℕ
  pub expires : ℕ
  pub ucsb_flag : Bool

-- `dispatch` is the queue's `queue_head`; `has_drq` says that `elevator_private` is not NULL.
-- `ucsb_cnt` is an `int` as its bit pattern.
pub record DeadlineData : Type 0 where
  pub sort_list : Both Tree
  pub fifo_list : Both (List ℕ)
  pub next_drq : Both (Option ℕ)
  pub dispatch : List ℕ
  pub hash : ℕ → List ℕ
  pub hash_valid_count : ℕ
  pub batching : ℕ
  pub last_sector : ℕ
  pub starved : ℕ
  pub ucsb_queue : List ℕ
  pub ucsb_cnt : ℕ
  pub fifo_expire : Both ℕ
  pub fifo_batch : ℕ
  pub writes_starved : ℕ
  pub front_merges : Bool
  pub last_merge : Option ℕ
  pub jiffies : ℕ
  pub rqs : ℕ → Request
  pub drqs : ℕ → DeadlineRq
  pub has_drq : ℕ → Bool
  pub qos : ℕ → Option UcsbIo

-- `rq->bio->bi_qos->priority`, a fault where a pointer on the way is NULL or freed.
unfoldable pub rq_priority : DeadlineData → ℕ → Option ℤ
rq_priority dd n = do bio ← (dd.rqs n).bio; p ← bio.bi_qos; q ← dd.qos p; some q.priority

-- `rq->bio->bi_sector`
unfoldable pub rq_bio_sector : DeadlineData → ℕ → Option ℕ
rq_bio_sector dd n = do bio ← (dd.rqs n).bio; some bio.bi_sector

-- `rq_data_dir(rq)`
abbrev pub dir_of : DeadlineData → ℕ → Dir
dir_of dd n = (dd.rqs n).dir

abbrev pub rb_key_of : DeadlineData → ℕ → ℕ
rb_key_of dd n = (dd.drqs n).rb_key

abbrev pub set_drq : DeadlineData → ℕ → DeadlineRq → DeadlineData
set_drq dd n d = record dd { drqs = update dd.drqs n d }

abbrev pub set_tree : DeadlineData → Dir → Tree → DeadlineData
set_tree dd d t = record dd { sort_list = put dd.sort_list d t }

abbrev pub set_next : DeadlineData → Dir → Option ℕ → DeadlineData
set_next dd d n = record dd { next_drq = put dd.next_drq d n }
