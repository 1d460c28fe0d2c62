-- ===== src/Segments/Table.antt =====
-- The scatter table of a request against the segment counts of its bios, from
-- ucsb-io/ucsb-io-2.5.67/drivers/block/ll_rw_blk.c.
use ucsb_disk_profiling.Prelude.{
  ℕ, zero, suc, ◌+◌, ◌-◌, ◌%◌, ◌≤◌, ◌<◌, ◌≡◌, refl, Option, none, some, true, List, [], ◌∷◌, ◌++◌,
  ◌>>=◌, length, arith, inl, inr, ap, rejoin, length-rejoin, Option-cases,
}
use ucsb_disk_profiling.Block.{uint_mod}
use ucsb_disk_profiling.Blk.Queue.{RequestQueue, ushort_mod}
use ucsb_disk_profiling.Segments.{
  BioVec, StructBio, PhysMap, Scan, Mapped, Scatter, pending_segments, segments_from, entries, skip,
  recount_vecs, blk_recount_segments, map_vecs, map_step, extend_scatter, new_scatter, map_bios,
  blk_rq_map_sg,
}
use ucsb_disk_profiling.Segments.Bytes.{scatter_bytes, vec_bytes, mapped_bytes}
use ucsb_disk_profiling.Segments.Count.{
  total_len, segments, segments-append, segments-le-length, recount-segments, map-segments_behind,
}

-- The vectors that are left in the bios of a request, one bio after the other.
unfoldable pub pending_all : List StructBio → Option (List BioVec)
pending_all [] = some []
pending_all (bio ∷ bios) =
    let rest = pending_all bios in do bvs ← pending_segments bio; cs ← rest; some (bvs ++ cs)

abbrev pub total_scatter : List Scatter → ℕ
total_scatter [] = 0
total_scatter (s ∷ sg) = s.length + total_scatter sg

pub length-entries {ℓ} :
    {A : Type ℓ} (n : ℕ) (xs ys : List A) → entries n xs ≡ some ys → length ys ≡ n
length-entries zero xs ys e = ground (arith, e)
length-entries (suc n) [] ys e = absurd (cc)
length-entries (suc n) (x ∷ xs) ys e = elim (Option-cases (entries n xs)) [
  | inl f ↦ absurd (ground (arith, e, f))
  | inr (zs, f) ↦ ground (arith, e, f, length-entries n xs zs f)
]

pending_all-split :
    (bio : StructBio) (bios : List StructBio) (bvs : List BioVec)
    → pending_all (bio ∷ bios) ≡ some bvs
    → (xs ys : List BioVec) × (pending_segments bio ≡ some xs)
      × (pending_all bios ≡ some ys)
      × (bvs ≡ xs ++ ys)
unfolding pending_all
pending_all-split bio bios bvs e = elim (Option-cases (pending_segments bio)) [
  | inl f ↦ absurd (ground (arith, e, f))
  | inr (xs, f) ↦ elim (Option-cases (pending_all bios)) [
    | inl g ↦ absurd (ground (arith, e, f, g))
    | inr (ys, g) ↦ (xs, ys, f, g, ground (arith, e, f, g))
  ]
]

pub total_len-append : (xs ys : List BioVec) → total_len (xs ++ ys) ≡ total_len xs + total_len ys
total_len-append [] ys = omega arith
total_len-append (x ∷ xs) ys = omega (arith, total_len-append xs ys)

total-rejoin :
    (xs ys : List Scatter) → total_scatter (rejoin xs ys) ≡ total_scatter xs + total_scatter ys
total-rejoin [] ys = omega arith
total-rejoin (x ∷ xs) ys = omega (arith, total-rejoin xs (x ∷ ys))

-- `bi_vcnt` fits its 16 bits.
abbrev pub CountsFit : List StructBio → Type 0
CountsFit [] = Unit
CountsFit (bio ∷ bios) = (bio.bi_vcnt < ushort_mod) × CountsFit bios

module _ (k : PhysMap) (q : RequestQueue) where
  -- The sum of the physical segments that a recount finds in each bio.
  unfoldable pub phys_segments : List StructBio → Option ℕ
  phys_segments [] = some 0
  phys_segments (bio ∷ bios) =
      let rest = phys_segments bios in
      do counted ← blk_recount_segments k q bio; n ← rest; some (counted.bi_phys_segments + n)

  map_vecs-append :
      (m : Mapped) (bvs cs : List BioVec)
      → map_vecs k q m (bvs ++ cs) ≡ map_vecs k q (map_vecs k q m bvs) cs
  unfolding map_vecs
  map_vecs-append m [] cs = refl
  map_vecs-append m (bv ∷ bvs) cs = map_vecs-append (map_step k q m bv) bvs cs

  map_bios-vecs :
      (m : Mapped) (bios : List StructBio) (bvs : List BioVec)
      → pending_all bios ≡ some bvs
      → map_bios k q m bios ≡ some (map_vecs k q m bvs)
  unfolding map_bios pending_all map_vecs
  map_bios-vecs m [] bvs e = ground (arith, e)
  map_bios-vecs m (bio ∷ bios) bvs e =
      let (xs, ys, f, g, h) = pending_all-split bio bios bvs e in
      ground (
        arith,
        f,
        map_bios-vecs (map_vecs k q m xs) bios ys g,
        map_vecs-append m xs ys,
        ap (map_vecs k q m) h,
      )

  extend-total :
      (p : BioVec) (sg : List Scatter) (bv : BioVec)
      → total_scatter sg + bv.bv_len < uint_mod
      → total_scatter (extend_scatter k q p sg bv).sg ≡ total_scatter sg + bv.bv_len
  unfolding extend_scatter new_scatter
  extend-total p [] bv l = omega arith
  extend-total p (s ∷ sg) bv l = ground (arith, l)

  map-total :
      (m : Mapped) (bvs : List BioVec)
      → total_scatter m.sg + total_len bvs < uint_mod
      → total_scatter (map_vecs k q m bvs).sg ≡ total_scatter m.sg + total_len bvs
  unfolding map_vecs map_step new_scatter
  map-total m [] l = omega arith
  map-total m (bv ∷ bvs) l = elim (Option-cases m.bvprv) [
    | inl e ↦ ground (arith, e, map-total (map_step k q m bv) bvs)
    | inr (p, e) ↦
        ground
          (arith, e, extend-total p m.sg bv (omega (arith, l)), map-total (map_step k q m bv) bvs)
  ]

  -- The bio that a recount of its vectors leaves.
  abbrev pub recounted : StructBio → List BioVec → StructBio
  recounted bio bvs =
      let scan : Scan = record { bvprv = none; seg_size = 0; nr_phys_segs = 0; nr_hw_segs = 0 } in
      let counted = recount_vecs k q scan bvs in
      record bio {
        bi_phys_segments = counted.nr_phys_segs % ushort_mod;
        bi_hw_segments = counted.nr_hw_segs % ushort_mod;
        seg_valid = true;
      }

  pub recount-counts :
      (bio : StructBio) (bvs : List BioVec)
      → pending_segments bio ≡ some bvs
      → bio.bi_vcnt < ushort_mod
      → (blk_recount_segments k q bio ≡ some (recounted bio bvs))
        × ((recounted bio bvs).bi_phys_segments ≡ segments k q bvs)
  unfolding blk_recount_segments pending_segments segments_from
  recount-counts bio bvs e l = elim (Option-cases bio.bi_io_vec) [
    | inl f ↦ absurd (ground (arith, e, f))
    | inr (table, f) ↦
        let scan : Scan = record { bvprv = none; seg_size = 0; nr_phys_segs = 0; nr_hw_segs = 0 } in
        (
          ground (arith, e, f),
          ground (
            arith,
            l,
            recount-segments k q scan bvs refl,
            segments-le-length k q bvs,
            length-entries (bio.bi_vcnt - bio.bi_idx) (skip bio.bi_idx table) bvs
                (ground (arith, e, f)),
          ),
        )
  ]

  phys-le-segments :
      (bios : List StructBio) (bvs : List BioVec)
      → pending_all bios ≡ some bvs
      → CountsFit bios
      → total_len bvs < uint_mod
      → (n : ℕ) × (phys_segments bios ≡ some n) × (segments k q bvs ≤ n)
  unfolding phys_segments pending_all segments
  phys-le-segments [] bvs e c l = (0, refl, ground (arith, e))
  phys-le-segments (bio ∷ bios) bvs e c l =
      let (xs, ys, f, g, h) = pending_all-split bio bios bvs e in
      let lengths = total_len-append xs ys in
      let (p, r) = recount-counts bio xs f c.0 in
      let (n, s, t) = phys-le-segments bios ys g c.1 (ground (arith, l, h, lengths)) in
      (
        (recounted bio xs).bi_phys_segments + n,
        ground (arith, p, s),
        ground (arith, r, t, h, l, segments-append k q xs ys (ground (arith, l, h, lengths))),
      )

  length-map :
      (bvs : List BioVec)
      → length (map_vecs k q (record { bvprv = none; sg = [] }) bvs).sg ≡ segments k q bvs
  unfolding map_vecs map_step new_scatter segments
  length-map [] = refl
  length-map (bv ∷ bvs) = omega (
    arith,
    map-segments_behind k q bv
        (record { page = bv.bv_page; length = bv.bv_len; offset = bv.bv_offset }) [] bvs,
  )

  -- A request whose bios have their tables, with less than 4 GB in all, is mapped without a fault; the
  -- physical addresses of the bytes of the scatter table, entry by entry, are those of the vectors that
  -- are left, one by one; and it has at most as many entries as the physical segments that a recount finds
  -- in the single bios.
  pub map_sg-fits :
      (bios : List StructBio) (bvs : List BioVec)
      → pending_all bios ≡ some bvs
      → CountsFit bios
      → total_len bvs < uint_mod
      → (sg : List Scatter) × (n : ℕ) × (blk_rq_map_sg k q bios ≡ some sg)
        × (phys_segments bios ≡ some n)
        × (length sg ≤ n)
        × (total_scatter sg ≡ total_len bvs)
        × (scatter_bytes k sg ≡ vec_bytes k bvs)
  unfolding blk_rq_map_sg
  map_sg-fits bios bvs e c l =
      let mapped = map_vecs k q (record { bvprv = none; sg = [] }) bvs in
      let (n, counted, enough) = phys-le-segments bios bvs e c l in
      (
        rejoin mapped.sg [],
        n,
        rw (map_bios-vecs (record { bvprv = none; sg = [] }) bios bvs e) refl,
        counted,
        omega (arith, length-rejoin {0} mapped.sg [], length-map bvs, enough),
        omega (
          arith,
          total-rejoin mapped.sg [],
          map-total (record { bvprv = none; sg = [] }) bvs (omega (arith, l)),
        ),
        mapped_bytes k q bvs l,
      )

  -- For a request of one bio the two loops agree: the table has exactly as many entries as the recount
  -- says.
  pub map_sg-recount :
      (bio : StructBio) (bvs : List BioVec)
      → pending_segments bio ≡ some bvs
      → bio.bi_vcnt < ushort_mod
      → (sg : List Scatter) × (counted : StructBio) × (blk_rq_map_sg k q (bio ∷ []) ≡ some sg)
        × (blk_recount_segments k q bio ≡ some counted)
        × (length sg ≡ counted.bi_phys_segments)
  unfolding blk_rq_map_sg map_bios
  map_sg-recount bio bvs e l =
      let mapped = map_vecs k q (record { bvprv = none; sg = [] }) bvs in
      let (p, r) = recount-counts bio bvs e l in
      (
        rejoin mapped.sg [],
        recounted bio bvs,
        rw e refl,
        p,
        omega (arith, r, length-rejoin {0} mapped.sg [], length-map bvs),
      )
