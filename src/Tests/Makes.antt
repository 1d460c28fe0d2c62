-- ===== src/Tests/Makes.antt =====
-- The theorems about `__make_request`, each at a concrete queue.
use ucsb_disk_profiling.Prelude.{
  ℕ, ◌+◌, ◌*◌, ◌%◌, ◌<◌, ◌≡◌, inl, inr, refl, Option, none, some, true, false, not, [], ◌∷◌, arith,
  ◌==◌, if◌then◌else◌, pos, ◌&&◌,
}
use ucsb_disk_profiling.Prelude.Tests.{Bool-cases}
use ucsb_disk_profiling.Block.{soft_rt, best_effort, read, ulong_mod}
use ucsb_disk_profiling.Deadline.Ucsb.{ucsb_io_type}
use ucsb_disk_profiling.Segments.{StructBio, recount_if_stale}
use ucsb_disk_profiling.Blk.Merge.{StructRequest}
use ucsb_disk_profiling.Blk.Make.{
  nowhere, Verdict, no_merge, back_merge, Elevator, CommandFlags, Env, State, fresh, PassEnd,
}
use ucsb_disk_profiling.Blk.Make.Pass.{pass}
use ucsb_disk_profiling.Blk.Make.Wait.{make_request}
use ucsb_disk_profiling.Blk.Make.Alone.{IsAlone, pass-IsAlone}
use ucsb_disk_profiling.Blk.Make.Waited.{GetsRequest, make_request-alone}
use ucsb_disk_profiling.Blk.Make.Well.{IsWell}
use ucsb_disk_profiling.Blk.Make.Merged.{AllWell}
use ucsb_disk_profiling.Blk.Make.Keeps.{IsReady, EndsWell}
use ucsb_disk_profiling.Blk.Make.Exact.{NamesTouching, pass-EndsWell}
use ucsb_disk_profiling.Tests.Queues.{queue, phys, page, bio_of}
use ucsb_disk_profiling.Tests.Requests.{sizes, lists}
use ucsb_disk_profiling.Tests.Submits.{idle_disk}

-- An elevator with one request that it knows of, 7, and tries for a back merge.
abbrev try_seven : ℕ → (ℕ → StructRequest) → (ℕ → CommandFlags) → StructBio → Option (Verdict × ℕ)
try_seven e requests commands bio =
    if not (requests 7).nomerge
      && (((requests 7).sector + (requests 7).nr_sectors) % ulong_mod == bio.bi_sector)
    then some (back_merge 7, e)
    else some (no_merge nowhere, e)

abbrev one_request : Elevator ℕ
one_request = record {
  elv_queue_empty = λ e. e == 0;
  elv_merge = try_seven;
  clear_last_merge = λ e. e;
  elv_merged_request = λ e r. e;
  elv_merge_requests = λ e r next. e;
  elv_latter_request = λ e r. none;
  elv_former_request = λ e r. none;
  elv_add_request_pos = λ e commands r place. e + 1;
}

-- Parameters at address 1 are soft real-time. While a task sleeps, two requests to read become free.
abbrev pub env_with : {E : Type 0} → Elevator E → Env E
env_with elevator = record {
  elevator = elevator;
  phys = phys;
  queue = queue;
  sizes = sizes;
  self = 0;
  jiffies = 10;
  rq_mergeable = λ req. not req.nomerge;
  disk_of = λ dev. 0;
  bounce = λ bio. bio;
  qos = λ p.
      (if p == 1
        then some (record { type = soft_rt; priority = pos 5; rate = pos 0; filp = some 4 })
        else none);
  strategy = record {
    elv_queue_empty = λ i q. elevator.elv_queue_empty i.elv;
    request_fn = λ q s. s;
    unplug_delay = λ q. 3;
  };
  asleep = λ n s. record s { driver = record s.driver { lists = lists } };
}

abbrev env : Env ℕ
env = env_with one_request

-- The page `n`, at its own sector.
abbrev pub page_at : ℕ → Option ℕ → StructBio
page_at n qos = record (bio_of (page n ∷ [])) { bi_sector = n * 8; bi_qos = qos }

abbrev of_page : ℕ → StructRequest
of_page n = record {
  sector = n * 8;
  nr_sectors = 8;
  current_nr_sectors = 8;
  hard_sector = n * 8;
  hard_nr_sectors = 8;
  hard_cur_sectors = 8;
  nr_phys_segments = 1;
  nr_hw_segments = 1;
  dir = read;
  nomerge = false;
  special = false;
  waiting = false;
  errors = 0;
  rq_disk = some 0;
  bios = page_at n none ∷ [];
}

-- Request 7 is of the first page; the others cannot be merged.
abbrev pub requests_at : ℕ → StructRequest
requests_at r = if r == 7 then of_page 1 else record (of_page 1) { nomerge = true }

abbrev pub queue_with : {E : Type 0} → E → State E
queue_with elv = record {
  plug_list = [];
  local_list = [];
  timer = λ q. none;
  unplug_work = λ q. false;
  stopped = λ q. false;
  driver = record {
    elv = elv;
    requests = requests_at;
    commands = λ r. record {
      rw_bits = 0;
      cmd = true;
      hardbarrier = false;
      softbarrier = false;
      started = false;
      start_time = 0;
    };
    lists = lists;
    disks = λ disk. idle_disk;
    ended = [];
  };
}

abbrev busy_queue : State ℕ
busy_queue = queue_with 1

one_request-NamesTouching : NamesTouching env
one_request-NamesTouching e requests commands bio dev a at_dev inside =
    let seven = requests 7 in
    elim (Bool-cases
      (not seven.nomerge && ((seven.sector + seven.nr_sectors) % ulong_mod == bio.bi_sector))) [
        | inl fits ↦
            (back_merge 7, e, ground (arith, fits), (ground (arith, fits), ground (arith, fits)))
        | inr other ↦ (no_merge nowhere, e, ground (arith, other), tt)
      ]

pub page-IsReady :
    {E : Type 0} (elevator : Elevator E) (n : ℕ)
    → n < 1000
    → IsReady (env_with elevator) (page_at n none) (page_at n none)
unfolding recount_if_stale
page-IsReady elevator n small = record {
  sound = record {
    dev = 0;
    at_dev = refl;
    vectors = record {
      table = page n ∷ [];
      v1 = page n;
      v2 = page n;
      at_table = refl;
      at_first = refl;
      at_last = refl;
      not_empty = refl;
    };
    counted = page_at n none;
    recount = record {
      runs = refl;
      again = refl;
      sector = refl;
      size = refl;
      device = refl;
      table = refl;
      vcnt = refl;
    };
    phys_pos = omega arith;
    hw_pos = omega arith;
    phys_in = omega arith;
    hw_in = omega arith;
  };
  sector = refl;
  size = refl;
  small = omega arith;
  inside = omega (arith, small);
  phys_max = omega arith;
  hw_max = omega arith;
}

first_page-IsWell : IsWell queue (of_page 1)
first_page-IsWell = record {
  head = page_at 1 none;
  rest = [];
  chain = refl;
  consecutive = (refl, tt);
  sectors = refl;
  hard = refl;
  sectors_in = omega arith;
  no_wrap = omega arith;
  vectors = (
    record {
      table = page 1 ∷ [];
      v1 = page 1;
      v2 = page 1;
      at_table = refl;
      at_first = refl;
      at_last = refl;
      not_empty = refl;
    },
    tt,
  );
  limits = omega arith;
}

pub requests_at-AllWell :
    {E : Type 0} (elevator : Elevator E) → AllWell (env_with elevator) requests_at
requests_at-AllWell elevator r = elim (Bool-cases (r == 7)) [
  | inl seven ↦ rw seven (inr first_page-IsWell)
  | inr other ↦ inl (ground (arith, other))
]

pub best_effort_page :
    {E : Type 0} (elevator : Elevator E)
    → ucsb_io_type
        (env_with elevator).qos
        (record { bi_sector = 16; bi_size = 4096; bi_dir = read; bd_disk = 0; bi_qos = none })
      ≡ some best_effort
unfolding ucsb_io_type
best_effort_page elevator = refl

-- The page behind request 7.
pass-EndsWell_example :
    (p : PassEnd ℕ) × (pass env busy_queue (page_at 2 none) 8 (page_at 2 none) none ≡ some p)
    × EndsWell env (page_at 2 none) p
pass-EndsWell_example =
    pass-EndsWell env busy_queue (page_at 2 none) (page_at 2 none) 8 none best_effort
      (page-IsReady one_request 2 (omega arith)) one_request-NamesTouching
      (best_effort_page one_request) (requests_at-AllWell one_request)

abbrev rt_page : StructBio
rt_page = page_at 2 (some 1)

soft_rt_page :
    ucsb_io_type env.qos
      (record { bi_sector = 16; bi_size = 4096; bi_dir = read; bd_disk = 0; bi_qos = some 1 })
    ≡ some soft_rt
unfolding ucsb_io_type
soft_rt_page = refl

rt_page_recount : recount_if_stale phys queue rt_page ≡ some rt_page
unfolding recount_if_stale
rt_page_recount = refl

pass-IsAlone_example :
    (p : PassEnd ℕ) × (pass env busy_queue rt_page 8 rt_page none ≡ some p)
    × IsAlone env rt_page 8 rt_page rt_page 0 refl rt_page_recount busy_queue p
pass-IsAlone_example =
    pass-IsAlone env rt_page 8 rt_page rt_page 0 refl rt_page_recount busy_queue none soft_rt
      soft_rt_page (inr refl)

make_request-alone_example :
    (r : ℕ) × (t : State ℕ) × (make_request env 1 busy_queue rt_page
      ≡ some (some (fresh r nowhere), t))
    × GetsRequest env 1 busy_queue rt_page rt_page 8 0 r t
make_request-alone_example =
    make_request-alone env 0 1 busy_queue rt_page rt_page (page 2) 0 soft_rt refl refl
      rt_page_recount soft_rt_page (inr refl) refl (λ s. (3, 4 ∷ 5 ∷ [], refl)) (omega arith)
