-- ===== src/Tests/Sample.antt =====
-- A kernel that meets the assumptions, and small scheduler states.
use ucsb_disk_profiling.Prelude.{
  ℕ, ◌+◌, ◌*◌, ◌≡◌, refl, ap, Option, none, some, true, false, List, [], ◌∷◌, pos, negsuc, ltb,
  ◌==◌, if◌then◌else◌, remove, after, rejoin, arith,
}
use ucsb_disk_profiling.Block.{read, write, UcsbIo, soft_rt, Bio, Request}
use ucsb_disk_profiling.Kernel.{Kernel, Tree, leaf, node, inorder}
use ucsb_disk_profiling.Deadline.State.{DeadlineData, DeadlineRq}
use ucsb_disk_profiling.Deadline.Invariant.{IsValid}

-- A tree with right children only.
abbrev pub spine : List ℕ → Tree
spine [] = leaf
spine (x ∷ xs) = node leaf x (spine xs)

pub inorder-spine : (xs : List ℕ) → inorder (spine xs) ≡ xs
inorder-spine [] = refl
inorder-spine (x ∷ xs) = ap (λ q. x ∷ q) (inorder-spine xs)

-- An unbalanced tree serves as a red-black tree.
abbrev pub kernel : Kernel
kernel = record {
  hash_long = λ a b. 0;
  time_after = λ a b. ltb b a;
  time_before = ltb;
  rq_mergeable = λ rq. rq.cmd;
  blk_fs_request = λ rq. rq.cmd;
  rb_insert_color = λ n t. t;
  rb_erase = λ n t. spine (remove n (inorder t));
  rb_next = λ n t. after n (inorder t);
  rb_prev = λ n t. after n (rejoin (inorder t) []);
  inorder-rb_insert_color = λ n t. refl;
  inorder-rb_erase = λ n t h. inorder-spine (remove n (inorder t));
  rb_next-after = λ n t h. refl;
  rb_prev-after = λ n t h. refl;
}

-- Bios whose QoS parameters have the number of the request.
abbrev pub bio_at : ℕ → Bio
bio_at n = record { bi_sector = n * 8; bi_size = 4096; bi_dir = read; bd_disk = 0; bi_qos = some n }

-- Request `n` begins at sector `8 * n`; request 3 is a write.
abbrev pub request_at : ℕ → Request
request_at n = record {
  sector = n * 8;
  nr_sectors = 8;
  dir = if n == 3 then write else read;
  cmd = true;
  started = false;
  nomerge = false;
  hardbarrier = false;
  softbarrier = false;
  waiting = false;
  special = false;
  rq_disk = 0;
  bio = some (bio_at n);
}

abbrev pub drq_at : ℕ → DeadlineRq
drq_at n = record {
  rb_key = n * 8;
  on_rb = true;
  hash_valid_count = 0;
  expires = 500;
  ucsb_flag = false;
}

-- Requests 10 and above have the priority 16 more than ten below their number, request 9 has -1.
abbrev pub qos_at : ℕ → Option UcsbIo
qos_at n = some (record {
  type = soft_rt;
  priority = if n == 9 then negsuc 0 else pos (6 + n);
  rate = pos 0;
  filp = none;
})

-- Nothing is queued.
abbrev pub idle_queue : DeadlineData
idle_queue = record {
  sort_list = record { reads = leaf; writes = leaf };
  fifo_list = record { reads = []; writes = [] };
  next_drq = record { reads = none; writes = none };
  dispatch = [];
  hash = λ b. [];
  hash_valid_count = 1;
  batching = 0;
  last_sector = 0;
  starved = 0;
  ucsb_queue = [];
  ucsb_cnt = 0;
  fifo_expire = record { reads = 500; writes = 5000 };
  fifo_batch = 16;
  writes_starved = 2;
  front_merges = true;
  last_merge = none;
  jiffies = 100;
  rqs = request_at;
  drqs = drq_at;
  has_drq = λ n. true;
  qos = qos_at;
}

-- Two reads and a write are queued, and two UCSB requests.
abbrev pub busy_queue : DeadlineData
busy_queue = record idle_queue {
  sort_list = record { reads = spine (1 ∷ 2 ∷ []); writes = spine (3 ∷ []) };
  fifo_list = record { reads = 2 ∷ 1 ∷ []; writes = 3 ∷ [] };
  ucsb_queue = 10 ∷ 11 ∷ [];
  ucsb_cnt = 2;
}

pub busy_queue-IsValid : IsValid busy_queue
busy_queue-IsValid = record {
  reads = record {
    sorted = omega arith;
    same = λ a. omega arith;
    owned = λ a p. grind arith;
    next = λ a e. absurd (cc);
  };
  writes = record {
    sorted = omega arith;
    same = λ a. omega arith;
    owned = λ a p. grind arith;
    next = λ a e. absurd (cc);
  };
}
