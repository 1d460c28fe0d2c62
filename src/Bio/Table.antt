-- ===== src/Bio/Table.antt =====
-- Allocation in ucsb-io/ucsb-io-2.5.67/fs/bio.c: the table of vectors that a bio gets.
use ucsb_disk_profiling.Prelude.{
  ℕ, zero, suc, ◌*◌, ◌≤◌, ◌<◌, ◌≡◌, refl, Option, none, some, Bool, true, List, leb, arith, length,
  ap, inl, inr,
}
use ucsb_disk_profiling.Prelude.Tests.{Bool-cases}
use ucsb_disk_profiling.Segments.{BioVec, StructBio}
use ucsb_disk_profiling.Bio.{
  bvec_pool, pool_vecs, bvec_alloc, bio_init, bio_alloc, replicate, empty_vec, freed, bio_put,
  bio_destructor,
}

pub length-replicate {ℓ} : {A : Type ℓ} (n : ℕ) (a : A) → length (replicate n a) ≡ n
length-replicate zero a = refl
length-replicate (suc n) a = ap suc (length-replicate n a)

-- Pool `idx` is the one for `nr` vectors.
record Fits (nr idx : ℕ) : Type 0 where
  chosen : bvec_pool nr ≡ some idx
  valid : idx < 6
  room : nr ≤ pool_vecs idx
  most : pool_vecs idx ≤ 256
  tight : pool_vecs idx < nr * 4

choose_at :
    (nr idx : ℕ)
    → (bvec_pool nr ≡ some idx)
      × (idx < 6)
      × (nr ≤ pool_vecs idx)
      × (pool_vecs idx ≤ 256)
      × (pool_vecs idx < nr * 4)
    → (i : ℕ) × Fits nr i
choose_at nr idx (c, v, r, m, t) =
    (idx, record { chosen = c; valid = v; room = r; most = m; tight = t })

choose_pool : (nr : ℕ) → 1 ≤ nr → nr ≤ 256 → (idx : ℕ) × Fits nr idx
unfolding bvec_pool pool_vecs
choose_pool nr h l = elim (Bool-cases (leb nr 1)) [
  | inl a ↦ choose_at nr 0 (ground (arith, h, l, a))
  | inr a ↦ elim (Bool-cases (leb nr 4)) [
    | inl b ↦ choose_at nr 1 (ground (arith, h, l, a, b))
    | inr b ↦ elim (Bool-cases (leb nr 16)) [
      | inl c ↦ choose_at nr 2 (ground (arith, h, l, a, b, c))
      | inr c ↦ elim (Bool-cases (leb nr 64)) [
        | inl d ↦ choose_at nr 3 (ground (arith, h, l, a, b, c, d))
        | inr d ↦ elim (Bool-cases (leb nr 128)) [
          | inl e ↦ choose_at nr 4 (ground (arith, h, l, a, b, c, d, e))
          | inr e ↦ choose_at nr 5 (ground (arith, h, l, a, b, c, d, e))
        ]
      ]
    ]
  ]
]

-- bio_alloc with memory in both pools, for 1 to 256 vectors: a bio with one reference, no QoS parameters
-- and a table of its own, with room for the vectors asked for, and less than four times as many, that
-- bio_put gives back to the pool of tables of its length.
pub alloc_room :
    (garbage : StructBio) (nr : ℕ)
    → 1 ≤ nr
    → nr ≤ 256
    → (bio : StructBio) × (table : List BioVec) × (bio_alloc (some garbage) true nr ≡ some bio)
      × (bio.bi_io_vec ≡ some table)
      × (length table ≡ bio.bi_max_vecs)
      × (nr ≤ bio.bi_max_vecs)
      × (bio.bi_max_vecs < nr * 4)
      × (bio.bi_max_vecs ≤ 256)
      × (pool_vecs bio.pool_idx ≡ bio.bi_max_vecs)
      × (bio_put bio ≡ some (freed (some bio.pool_idx)))
      × (bio.bi_cnt ≡ 1)
      × (bio.bi_vcnt ≡ 0)
      × (bio.bi_size ≡ 0)
      × (bio.bi_qos ≡ none)
unfolding bio_alloc bvec_alloc bio_init bio_put bio_destructor
alloc_room garbage nr h l =
    let (idx, fits) = choose_pool nr h l in
    let bio = bio_init garbage in
    let table = replicate (pool_vecs idx) empty_vec in
    let made : StructBio = record bio {
      pool_idx = idx;
      bi_max_vecs = pool_vecs idx;
      bi_io_vec = some table;
    } in
    (
      made,
      table,
      ground (arith, h, fits.chosen),
      refl,
      length-replicate (pool_vecs idx) empty_vec,
      fits.room,
      fits.tight,
      fits.most,
      refl,
      ground (arith, fits.valid),
      refl,
      refl,
      refl,
      refl,
    )

-- For more than 256 vectors, bio_alloc returns NULL, whatever memory there is.
pub alloc-none :
    (memory : Option StructBio) (given : Bool) (nr : ℕ)
    → 256 < nr
    → bio_alloc memory given nr ≡ none
unfolding bio_alloc bvec_alloc bvec_pool
alloc-none none given nr h = refl
alloc-none (some garbage) given nr h = ground (arith, h)
