-- ===== src/Blk/Tags.antt =====
-- Tagged queueing in ucsb-io/ucsb-io-2.5.67/drivers/block/ll_rw_blk.c: a bitmap of tags, a table of the
-- requests that hold them, and the list of these requests.
pub mod Least
pub mod Held
use ucsb_disk_profiling.Prelude.{
  ℕ, zero, suc, ◌+◌, ◌-◌, ◌*◌, ◌/◌, ◌%◌, Option, none, some, Bool, true, false, not, ◌&&◌, List, [],
  ◌∷◌, ltb, leb, ◌==◌, if◌then◌else◌, ◌>>=◌, remove, ℤ, pos, negsuc,
}
use ucsb_disk_profiling.Block.{update, uint_mod}

-- `struct blk_queue_tag`. `words` is the number of longs of the bitmap; bit `t` of it is `tag_map t`.
pub record QueueTags : Type 0 where
  pub tag_index : ℕ → Option ℕ
  pub tag_map : ℕ → Bool
  pub words : ℕ
  pub busy_list : List ℕ
  pub busy : ℕ
  pub max_depth : ℕ

-- The tag of a request, NULL for -1, REQ_QUEUED and REQ_STARTED.
pub record Tag : Type 0 where
  pub tag : Option ℕ
  pub queued : Bool
  pub started : Bool

-- The tags, and those of the requests.
pub record Tagged : Type 0 where
  pub bqt : QueueTags
  pub rqs : ℕ → Tag

-- BLK_TAGS_PER_LONG of a 64-bit machine
abbrev pub tags_per_long : ℕ
tags_per_long = 64

-- A place past the end of `tag_index`, or before it, is a fault.
unfoldable pub blk_queue_find_tag : Option QueueTags → ℤ → Option (Option ℕ)
blk_queue_find_tag none tag = some none
blk_queue_find_tag (some bqt) (pos tag) =
    if ltb bqt.max_depth tag
    then some none
    else if ltb tag bqt.max_depth
    then some (bqt.tag_index tag)
    else none
blk_queue_find_tag (some bqt) (negsuc n) = none

-- BUG where a request is still tagged.
unfoldable pub blk_queue_free_tags : Option QueueTags → Option (Option QueueTags)
blk_queue_free_tags none = some none
blk_queue_free_tags (some bqt) =
    if bqt.busy == 0 then (elim bqt.busy_list [ [] ↦ some none | _ ∷ _ ↦ none ]) else none

-- `blk_queue_init_tags`, where `enough` says that none of the three allocations fails; -ENOMEM is -12.
unfoldable pub blk_queue_init_tags : ℕ → Bool → ℕ → ℤ × Option QueueTags
blk_queue_init_tags queue_nr_requests enough depth =
    let limit = queue_nr_requests * 2 in
    let max_depth = if ltb limit depth then limit else depth in
    if enough
    then (
      pos 0,
      some (record {
        tag_index = λ t. none;
        tag_map = λ t. leb max_depth t;
        words = max_depth / tags_per_long + 1;
        busy_list = [];
        busy = 0;
        max_depth = max_depth;
      }),
    )
    else (negsuc 11, none)

-- The first clear bit among `n` bits from `start` on, as `ffz` finds it in a word that is not all ones.
unfoldable pub first_clear : (ℕ → Bool) → ℕ → ℕ → Option ℕ
first_clear map start zero = none
first_clear map start (suc n) =
    let rest = first_clear map (start + 1) n in if map start then rest else some start

-- What the search of `blk_queue_start_tag` finds.
pub data Search : Type 0 where
  exhausted : Search
  found : ℕ → Search

-- The loop over the words, on the words that are left as fuel: a word past the bitmap is a fault.
unfoldable pub find_word : QueueTags → ℕ → ℕ → Option Search
unfolding first_clear
find_word bqt zero tag = none
find_word bqt (suc left) tag =
    let rest = find_word bqt left (tag + tags_per_long) in
    elim (first_clear bqt.tag_map tag tags_per_long) [
      | some free ↦ some (found free)
      | none ↦ if leb bqt.max_depth (tag + tags_per_long) then some exhausted else rest
    ]

abbrev pub set_tag : Tagged → ℕ → Tag → Tagged
set_tag s rq t = record s { rqs = update s.rqs rq t }

-- `blk_queue_start_tag`: 1 and no change if no tag is free. A request that is tagged is a BUG. That the
-- elevator forgets the request is its caller's part of the model.
unfoldable pub blk_queue_start_tag : Tagged → ℕ → Option (ℕ × Tagged)
unfolding find_word
blk_queue_start_tag s rq =
    if (s.rqs rq).queued then none else elim (find_word s.bqt s.bqt.words 0) [
      | none ↦ none
      | some exhausted ↦ some (1, s)
      | some (found tag) ↦ some (
        0,
        set_tag
            (record s {
              bqt = record s.bqt {
                tag_map = update s.bqt.tag_map tag true;
                tag_index = update s.bqt.tag_index tag (some rq);
                busy_list = rq ∷ s.bqt.busy_list;
                busy = s.bqt.busy + 1;
              };
            })
            rq (record (s.rqs rq) { queued = true; tag = some tag }),
      )
    ]

-- The end of a tag that is in range and busy.
unfoldable pub clear_tag : Tagged → ℕ → ℕ → Tagged
clear_tag s rq tag =
    set_tag
      (record s {
        bqt = record s.bqt {
          tag_map = update s.bqt.tag_map tag false;
          tag_index = update s.bqt.tag_index tag none;
          busy_list = remove rq s.bqt.busy_list;
          busy = (s.bqt.busy + uint_mod - 1) % uint_mod;
        };
      })
      rq (record (s.rqs rq) { queued = false; tag = none })

unfoldable pub blk_queue_end_tag : Tagged → ℕ → Option Tagged
unfolding clear_tag
blk_queue_end_tag s rq = do
  tag ← (s.rqs rq).tag
  some (if leb s.bqt.max_depth tag then s else if s.bqt.tag_map tag then clear_tag s rq tag else s)

-- The body of the loop of `blk_queue_invalidate_tags` up to the return of the request to the elevator.
unfoldable pub invalidate_one : Tagged → ℕ → Option Tagged
unfolding blk_queue_end_tag
invalidate_one s rq = do
  untagged ← elim (s.rqs rq).tag [
    | none ↦ some (
        set_tag (record s { bqt = record s.bqt { busy_list = remove rq s.bqt.busy_list } }) rq
          (record (s.rqs rq) { queued = false }))
    | some tag ↦ blk_queue_end_tag s rq
  ]
  some (set_tag untagged rq (record (untagged.rqs rq) { started = false }))

-- The loop over the busy list as it is at first; each request is put at the head of the elevator's
-- queue, so that the result's list is theirs, the last one first.
unfoldable pub invalidate_all : Tagged → List ℕ → List ℕ → Option (Tagged × List ℕ)
unfolding invalidate_one
invalidate_all s [] requeued = some (s, requeued)
invalidate_all s (rq ∷ rqs) requeued =
    let rest = λ (s' : Tagged). invalidate_all s' rqs (rq ∷ requeued) in
    do s' ← invalidate_one s rq; rest s'

unfoldable pub blk_queue_invalidate_tags : Tagged → Option (Tagged × List ℕ)
unfolding invalidate_all
blk_queue_invalidate_tags s = invalidate_all s s.bqt.busy_list []
