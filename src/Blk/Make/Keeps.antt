-- ===== src/Blk/Make/Keeps.antt =====
-- Every pass of `__make_request` in ucsb-io/ucsb-io-2.5.67/drivers/block/ll_rw_blk.c returns, and keeps
-- the requests of the queue exact, for any elevator that names requests that the bio touches.
use ucsb_disk_profiling.Prelude.{
  ◌≤◌, ℕ, ◌+◌, ◌%◌, ◌/◌, ◌^◌, ◌<◌, ◌≡◌, inl, inr, refl, sym, ap, ◌∙◌, Option, none, some, true,
  arith, Option-cases,
}
use ucsb_disk_profiling.Block.{ulong_mod}
use ucsb_disk_profiling.Blk.Queue.{ushort_mod}
use ucsb_disk_profiling.Segments.{StructBio}
use ucsb_disk_profiling.Blk.Merge.{StructRequest, sectors_of}
use ucsb_disk_profiling.Blk.Free.{get_request}
use ucsb_disk_profiling.Blk.Make.{
  Place, Verdict, no_merge, back_merge, front_merge, Env, State, dir_of_bio, Outcome, fresh,
  PassEnd, out, none_free, set_inner,
}
use ucsb_disk_profiling.Blk.Make.Well.{IsWell}
use ucsb_disk_profiling.Blk.Make.Grow.{IsSound, alone-IsWell, counted-HasVectors}
use ucsb_disk_profiling.Blk.Make.Pass.{new_request, add_filled, fill_request, get_rq}
use ucsb_disk_profiling.Blk.Make.Merged.{AllWell, update-AllWell}

module _ {E : Type 0} (k : Env E) where
  -- What elv_merge answers for: a mergeable request that ends where the bio begins, or begins where the
  -- bio ends.
  abbrev pub Touches : (ℕ → StructRequest) → StructBio → Verdict → Type 0
  Touches requests bio (no_merge place) = Unit
  Touches requests bio (back_merge r) =
      (k.rq_mergeable (requests r) ≡ true)
      × (((requests r).sector + (requests r).nr_sectors) % ulong_mod ≡ bio.bi_sector)
  Touches requests bio (front_merge r) =
      (k.rq_mergeable (requests r) ≡ true)
      × ((bio.bi_sector + sectors_of bio) % ulong_mod ≡ (requests r).sector)

  -- The bio, in the place of the one that was submitted, below the end of the sectors.
  pub record IsReady (orig bio : StructBio) : Type 0 where
    pub sound : IsSound k.phys k.queue bio
    pub sector : bio.bi_sector ≡ orig.bi_sector
    pub size : sectors_of bio ≡ sectors_of orig
    pub small : sectors_of orig ≤ k.queue.max_sectors
    pub inside : orig.bi_sector + sectors_of orig < ulong_mod
    pub phys_max : k.queue.max_phys_segments < ushort_mod
    pub hw_max : k.queue.max_hw_segments < ushort_mod

  -- Where a pass ends: all requests are well-formed, and a bio that has to wait is ready for another pass.
  pub data EndsWell (orig : StructBio) : PassEnd E → Type 0 where
    at_out :
        {t : State E} {outcome : Outcome} {left : Option ℕ}
        → AllWell k t.driver.requests
        → EndsWell orig (out t outcome left)
    at_wait :
        {t : State E} {bio : StructBio}
        → AllWell k t.driver.requests
        → IsReady orig bio
        → EndsWell orig (none_free t bio)

  pub counted-IsReady : (orig bio : StructBio) (y : IsReady orig bio) → IsReady orig y.sound.counted
  counted-IsReady orig bio y =
      let s = y.sound in
      record {
        sound = record {
          dev = s.dev;
          at_dev = s.recount.device ∙ s.at_dev;
          vectors = counted-HasVectors k.phys k.queue bio s;
          counted = s.counted;
          recount = record {
            runs = s.recount.again;
            again = s.recount.again;
            sector = refl;
            size = refl;
            device = refl;
            table = refl;
            vcnt = refl;
          };
          phys_pos = s.phys_pos;
          hw_pos = s.hw_pos;
          phys_in = s.phys_in;
          hw_in = s.hw_in;
        };
        sector = s.recount.sector ∙ y.sector;
        size = ap (λ n. n / 2 ^ 9) s.recount.size ∙ y.size;
        small = y.small;
        inside = y.inside;
        phys_max = y.phys_max;
        hw_max = y.hw_max;
      }

  new-IsWell :
      (orig bio : StructBio) (y : IsReady orig bio) (cur dev : ℕ)
      → IsWell k.queue (new_request k orig cur y.sound.counted dev)
  unfolding new_request
  new-IsWell orig bio y cur dev =
      let s = y.sound in
      alone-IsWell k.phys k.queue (new_request k orig cur s.counted dev) bio s
        (omega (arith, y.sector, y.size, y.inside))
        (record {
          phys_pos = s.phys_pos;
          hw_pos = s.hw_pos;
          phys_in = s.phys_in;
          hw_in = s.hw_in;
          phys_max = y.phys_max;
          hw_max = y.hw_max;
        })
        (omega (arith, y.size, y.small)) (sym y.sector) refl (sym y.size) refl

  fill-EndsWell :
      (s : State E) (orig bio : StructBio) (cur : ℕ) (place : Place) (r : ℕ)
      → IsReady orig bio
      → AllWell k s.driver.requests
      → (p : PassEnd E) × (fill_request k s orig cur bio place r ≡ some p) × EndsWell orig p
  unfolding fill_request add_filled
  fill-EndsWell s orig bio cur place r y a =
      let req = new_request k orig cur y.sound.counted y.sound.dev in
      let t = add_filled k s bio req place r in
      (
        out t (fresh r place) none,
        ground (arith, y.sound.recount.runs, y.sound.at_dev),
        at_out (
            update-AllWell k s.driver.requests r req a
              (inr (new-IsWell orig bio y cur y.sound.dev))),
      )

  pub get_rq-EndsWell :
      (s : State E) (orig bio : StructBio) (cur : ℕ) (place : Place) (freereq : Option ℕ)
      → IsReady orig bio
      → AllWell k s.driver.requests
      → (p : PassEnd E) × (get_rq k s orig cur bio place freereq ≡ some p) × EndsWell orig p
  unfolding get_rq
  get_rq-EndsWell s orig bio cur place (some r) y a = fill-EndsWell s orig bio cur place r y a
  get_rq-EndsWell s orig bio cur place none y a =
      let got = get_request k.sizes s.driver.lists (dir_of_bio orig) in
      let u = set_inner s (record s.driver { lists = got.1 }) in
      elim (Option-cases got.0) [
        | inl e ↦ (none_free u bio, ground (arith, e), at_wait a y)
        | inr (r, e) ↦
            let (p, run, well) = fill-EndsWell u orig bio cur place r y a in
            (p, ground (arith, e, run), well)
      ]
