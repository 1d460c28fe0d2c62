-- ===== src/Blk/Tags/Held.antt =====
-- Tags that requests hold, from their set-up to their end, in
-- ucsb-io/ucsb-io-2.5.67/drivers/block/ll_rw_blk.c.
use ucsb_disk_profiling.Prelude.{
  ℕ, ◌+◌, ◌*◌, ◌/◌, ◌≤◌, ◌<◌, ◌≡◌, ◌≢◌, ◌⊎◌, inl, inr, refl, none, some, true, false, ltb, leb,
  ◌==◌, if◌then◌else◌, arith, [], ◌∷◌, length, ==_refl, pos,
}
use ucsb_disk_profiling.Prelude.Tests.{Bool-cases}
use ucsb_disk_profiling.Block.{update, uint_mod}
use ucsb_disk_profiling.Blk.Tags.{
  QueueTags, Tagged, tags_per_long, blk_queue_start_tag, blk_queue_end_tag, clear_tag,
  blk_queue_find_tag, blk_queue_init_tags, set_tag,
}
use ucsb_disk_profiling.Blk.Tags.Least.{HasGuard, IsFirst, AllSet, find_word_cases}

-- The guard bits are set, and no free tag has a request.
pub record IsTagged (bqt : QueueTags) : Type 0 where
  pub guarded : HasGuard bqt
  pub unused : (t : ℕ) → bqt.tag_map t ≡ false → bqt.tag_index t ≡ none
  pub counted : bqt.busy ≡ length bqt.busy_list
  pub small : bqt.busy + 1 < uint_mod

-- `s'` is `s` where `rq` holds the tag `t`, the least that was free.
pub record Holds (s s' : Tagged) (rq t : ℕ) : Type 0 where
  pub in_depth : t < s.bqt.max_depth
  pub least : IsFirst s.bqt.tag_map 0 t
  pub has_tag : (s'.rqs rq).tag ≡ some t
  pub set_map : (u : ℕ) → s'.bqt.tag_map u ≡ (if u == t then true else s.bqt.tag_map u)
  pub set_index : (u : ℕ) → s'.bqt.tag_index u ≡ (if u == t then some rq else s.bqt.tag_index u)
  pub busy_list : s'.bqt.busy_list ≡ rq ∷ s.bqt.busy_list
  pub busy : s'.bqt.busy ≡ s.bqt.busy + 1
  pub max_depth : s'.bqt.max_depth ≡ s.bqt.max_depth
  pub guarded : HasGuard s'.bqt

-- A request that is not tagged, with the tags in order: blk_queue_start_tag gives it the least free tag
-- below the depth and enters it everywhere; or it returns 1 and changes nothing, and every tag below the
-- depth is in use.
pub start_tag-Holds :
    (s : Tagged) (rq : ℕ)
    → IsTagged s.bqt
    → (s.rqs rq).queued ≡ false
    → ((t : ℕ) × (s' : Tagged) × (blk_queue_start_tag s rq ≡ some (0, s')) × Holds s s' rq t)
      ⊎ ((blk_queue_start_tag s rq ≡ some (1, s)) × AllSet s.bqt.tag_map 0 s.bqt.max_depth)
unfolding blk_queue_start_tag
start_tag-Holds s rq v off =
    elim (find_word_cases s.bqt v.guarded s.bqt.words 0 (omega arith) (omega arith)
      (λ u l h. absurd (omega arith))) [
        | inr (e, all) ↦ inr (rw (off, e) refl, all)
        | inl (t, e, l, first) ↦
            let s' =
              set_tag
                (record s {
                  bqt = record s.bqt {
                    tag_map = update s.bqt.tag_map t true;
                    tag_index = update s.bqt.tag_index t (some rq);
                    busy_list = rq ∷ s.bqt.busy_list;
                    busy = s.bqt.busy + 1;
                  };
                })
                rq (record (s.rqs rq) { queued = true; tag = some t }) in
            inl (
              t,
              s',
              rw (off, e) refl,
              record {
                in_depth = l;
                least = first;
                has_tag = rw (==_refl rq) refl;
                set_map = λ u. refl;
                set_index = λ u. refl;
                busy_list = refl;
                busy = refl;
                max_depth = refl;
                guarded = record {
                  length = v.guarded.length;
                  guard = λ u h. ground (arith, v.guarded.guard u h);
                };
              },
            )
      ]

-- A request that holds the tag `t` is found by it, and when its tag ends the bitmap, the table, the list
-- and the count are what they were before the tag was given.
pub end_tag-Holds :
    (s s' : Tagged) (rq t : ℕ)
    → IsTagged s.bqt
    → Holds s s' rq t
    → (blk_queue_find_tag (some s'.bqt) (pos t) ≡ some (some rq))
      × (s'' : Tagged) × (blk_queue_end_tag s' rq ≡ some s'')
      × ((u : ℕ) → s''.bqt.tag_map u ≡ s.bqt.tag_map u)
      × ((u : ℕ) → s''.bqt.tag_index u ≡ s.bqt.tag_index u)
      × (s''.bqt.busy_list ≡ s.bqt.busy_list)
      × (s''.bqt.busy ≡ s.bqt.busy)
      × ((s''.rqs rq).tag ≡ none)
unfolding blk_queue_find_tag blk_queue_end_tag clear_tag
end_tag-Holds s s' rq t v h = (
  ground (arith, h.in_depth, h.max_depth, h.set_index t, ==_refl t),
  clear_tag s' rq t,
  ground (arith, h.has_tag, h.in_depth, h.max_depth, h.set_map t, ==_refl t),
  λ u. ground (arith, h.set_map u, h.least.clear),
  λ u. ground (arith, h.set_index u, v.unused t h.least.clear),
  ground (arith, h.busy_list, ==_refl rq),
  ground (arith, h.busy, v.small),
  rw (==_refl rq) refl,
)

-- blk_queue_init_tags with its memory: at most twice the requests of a list, none in use, and the bitmap
-- is guarded from the depth on.
pub init_tags-IsTagged :
    (queue_nr_requests depth : ℕ)
    → (bqt : QueueTags) × (blk_queue_init_tags queue_nr_requests true depth ≡ (pos 0, some bqt))
      × (bqt.max_depth ≤ depth)
      × (bqt.max_depth ≤ queue_nr_requests * 2)
      × IsTagged bqt
      × ((t : ℕ) → t < bqt.max_depth → bqt.tag_map t ≡ false)
unfolding blk_queue_init_tags
init_tags-IsTagged queue_nr_requests depth =
    let limit = queue_nr_requests * 2 in
    let max_depth = if ltb limit depth then limit else depth in
    (
      record {
        tag_index = λ t. none;
        tag_map = λ t. leb max_depth t;
        words = max_depth / tags_per_long + 1;
        busy_list = [];
        busy = 0;
        max_depth = max_depth;
      },
      refl,
      ground arith,
      ground arith,
      record {
        guarded = record { length = refl; guard = λ t h. ground (arith, h) };
        unused = λ t h. refl;
        counted = refl;
        small = omega arith;
      },
      λ t h. ground (arith, h),
    )

-- blk_queue_find_tag reads past its table for exactly one tag that it does not reject, the depth itself.
pub find_tag-faults :
    (bqt : QueueTags) (tag : ℕ)
    → ((tag ≡ bqt.max_depth) × (blk_queue_find_tag (some bqt) (pos tag) ≡ none))
      ⊎ ((tag ≢ bqt.max_depth)
          × (blk_queue_find_tag (some bqt) (pos tag)
              ≡ some (if ltb tag bqt.max_depth then bqt.tag_index tag else none)))
unfolding blk_queue_find_tag
find_tag-faults bqt tag = elim (Bool-cases (tag == bqt.max_depth)) [
  | inl e ↦ inl (ground (arith, e), ground (arith, e))
  | inr e ↦ inr (λ f. ground (arith, e, f), ground (arith, e))
]
