-- ===== src/Blk/Complete/Bytes.antt =====
-- The bytes that `__end_that_request_first` accounts for, in
-- ucsb-io/ucsb-io-2.5.67/drivers/block/ll_rw_blk.c.
use ucsb_disk_profiling.Prelude.{
  ℕ, zero, suc, ◌+◌, ◌-◌, ◌%◌, ◌≤◌, ◌<◌, ◌≡◌, ◌⊎◌, inl, inr, refl, none, some, Bool, List, [], ◌∷◌,
  ltb, leb, ◌==◌, arith, length, Option-cases,
}
use ucsb_disk_profiling.Prelude.Tests.{Bool-cases}
use ucsb_disk_profiling.Block.{uint_mod}
use ucsb_disk_profiling.Segments.{BioVec, StructBio, skip, first, entries}
use ucsb_disk_profiling.Segments.Count.{total_len}
use ucsb_disk_profiling.Segments.Table.{length-entries}
use ucsb_disk_profiling.Blk.Complete.{
  Partial, Ended, end_vecs, end_bios, trim_current, also, bio_endio, rounds_of, set_vec,
}

-- The bytes of a bio are those of the vectors that are left of it.
pub record IsConsistent (bio : StructBio) : Type 0 where
  pub table : List BioVec
  pub left : List BioVec
  pub at_table : bio.bi_io_vec ≡ some table
  pub at_left : entries (bio.bi_vcnt - bio.bi_idx) (skip bio.bi_idx table) ≡ some left
  pub bytes : total_len left ≡ bio.bi_size
  pub some_left : 0 < bio.bi_size

abbrev pub AllConsistent : List StructBio → Type 0
AllConsistent [] = Unit
AllConsistent (bio ∷ bios) = IsConsistent bio × AllConsistent bios

abbrev pub total_size : List StructBio → ℕ
total_size [] = 0
total_size (bio ∷ bios) = bio.bi_size + total_size bios

first-entries :
    (n : ℕ) (xs : List BioVec) (y : BioVec) (ys : List BioVec)
    → entries n xs ≡ some (y ∷ ys)
    → (first xs ≡ some y) × (m : ℕ) × (n ≡ suc m) × (entries m (skip 1 xs) ≡ some ys)
first-entries zero xs y ys e = absurd (ground (arith, e))
first-entries (suc n) [] y ys e = absurd (cc)
first-entries (suc n) (x ∷ xs) y ys e = elim (Option-cases (entries n xs)) [
  | inl f ↦ absurd (ground (arith, e, f))
  | inr (zs, f) ↦ (ground (arith, e, f), n, refl, ground (arith, e, f))
]

skip-skip : (i : ℕ) (xs : List BioVec) → skip 1 (skip i xs) ≡ skip (suc i) xs
skip-skip zero xs = refl
skip-skip (suc i) [] = refl
skip-skip (suc i) (x ∷ xs) = skip-skip i xs

skip-next :
    (m i j : ℕ) (table bvs : List BioVec)
    → entries m (skip 1 (skip (i + j) table)) ≡ some bvs
    → entries m (skip (i + (j + 1)) table) ≡ some bvs
skip-next m i j table bvs e =
    let n : suc (i + j) ≡ i + (j + 1) = omega arith in rw (← n) (rw (← skip-skip (i + j) table) e)

module _ (bio : StructBio) (table : List BioVec) (at_table : bio.bi_io_vec ≡ some table)
    (current : BioVec) (at_current : first (skip bio.bi_idx table) ≡ some current)
    (more : bio.bi_idx < bio.bi_vcnt) where
  trim_total :
      (n : ℕ)
      → (trimmed : StructBio) × (trim_current bio n ≡ some trimmed)
        × (trimmed.bi_size ≡ bio.bi_size)
  unfolding trim_current
  trim_total n = (
    record bio {
      bi_io_vec = some (
          set_vec table bio.bi_idx (record current {
            bv_offset = (current.bv_offset + n) % uint_mod;
            bv_len = (current.bv_len + uint_mod - n) % uint_mod;
          }));
    },
    rw (at_table, at_current) refl,
    refl,
  )

  -- Inside a bio that has more bytes, the loop takes all the bytes that it is given.
  vecs_total :
      (rounds m : ℕ) (p : Partial) (bvs : List BioVec) (n : ℕ)
      → entries m (skip (bio.bi_idx + p.next_idx) table) ≡ some bvs
      → length bvs < rounds
      → n < total_len bvs
      → total_len bvs ≤ bio.bi_size
      → p.bio.bi_size ≡ bio.bi_size
      → (p' : Partial) × (end_vecs rounds bio p n ≡ some p')
        × (p'.total_bytes ≡ p.total_bytes + n)
        × (p'.bio_nbytes ≡ p.bio_nbytes + n)
        × (p'.bio.bi_size ≡ bio.bi_size)
  unfolding end_vecs
  vecs_total zero m p bvs n e l h s z = absurd (omega arith)
  vecs_total (suc rounds) m p [] n e l h s z = absurd (omega arith)
  vecs_total (suc rounds) m p (bv ∷ bvs) n e l h s z =
      let (f, m', g, tail) = first-entries m (skip (bio.bi_idx + p.next_idx) table) bv bvs e in
      let further : Partial = record p {
        next_idx = p.next_idx + 1;
        bio_nbytes = p.bio_nbytes + bv.bv_len;
        total_bytes = p.total_bytes + bv.bv_len;
      } in
      elim (Bool-cases (ltb n bv.bv_len)) [
        | inl short ↦
            let (trimmed, i, j) = trim_total n in
            (
              record p {
                bio = trimmed;
                bio_nbytes = p.bio_nbytes + n;
                total_bytes = p.total_bytes + n;
              },
              ground (arith, more, at_table, f, s, short, i),
              refl,
              refl,
              j,
            )
        | inr long ↦ elim (Bool-cases (n == bv.bv_len)) [
          | inl same ↦ (
            further,
            ground (arith, more, at_table, f, s, long, same),
            ground (arith, same),
            ground (arith, same),
            z,
          )
          | inr less ↦
              let (p', i, j, u, v) =
                vecs_total rounds m' further bvs (n - bv.bv_len)
                  (skip-next m' bio.bi_idx p.next_idx table bvs tail) (omega (arith, l))
                  (ground (arith, h, long)) (omega (arith, s)) z in
              (
                p',
                ground (arith, more, at_table, f, s, long, less, i),
                ground (arith, j, long),
                ground (arith, u, long),
                v,
              )
        ]
      ]

-- The bytes that are left behind the loop: those of the bios left, less what the partial bio still has
-- to be told.
abbrev pub left_bytes : Ended → ℕ
left_bytes r = elim r.in_bio [
  | none ↦ total_size r.left
  | some p ↦ total_size r.left - p.bio_nbytes
]

bio_total :
    (bio : StructBio) (total n : ℕ)
    → IsConsistent bio
    → n < bio.bi_size
    → (p : Partial) × (end_vecs
          (rounds_of bio)
          bio
          (record { bio = bio; next_idx = 0; bio_nbytes = 0; total_bytes = total })
          n
        ≡ some p)
      × (p.total_bytes ≡ total + n)
      × (p.bio_nbytes ≡ n)
      × (p.bio.bi_size ≡ bio.bi_size)
bio_total bio total n c h = start c.left c.at_left c.bytes
  where
    start :
        (left : List BioVec)
        → entries (bio.bi_vcnt - bio.bi_idx) (skip bio.bi_idx c.table) ≡ some left
        → total_len left ≡ bio.bi_size
        → (p : Partial) × (end_vecs
              (rounds_of bio)
              bio
              (record { bio = bio; next_idx = 0; bio_nbytes = 0; total_bytes = total })
              n
            ≡ some p)
          × (p.total_bytes ≡ total + n)
          × (p.bio_nbytes ≡ n)
          × (p.bio.bi_size ≡ bio.bi_size)
    start [] e b = absurd (omega arith)
    start (bv ∷ bvs) e b =
        let (f, m, g, tail) =
          first-entries (bio.bi_vcnt - bio.bi_idx) (skip bio.bi_idx c.table) bv bvs e in
        let here : bio.bi_idx + 0 ≡ bio.bi_idx = omega arith in
        let lengths =
          length-entries {0} (bio.bi_vcnt - bio.bi_idx) (skip bio.bi_idx c.table) (bv ∷ bvs) e in
        let (p, i, j, u, v) =
          vecs_total bio c.table c.at_table bv f (omega (arith, g)) (rounds_of bio)
            (bio.bi_vcnt - bio.bi_idx)
            (record { bio = bio; next_idx = 0; bio_nbytes = 0; total_bytes = total }) (bv ∷ bvs) n
            (rw here e) (omega (arith, lengths)) (omega (arith, h, b)) (omega (arith, b)) refl in
        (p, i, j, omega (arith, u), v)

-- Behind the loop, for `n` bytes of `size` from `total` on: everything has ended, or exactly `n` bytes.
pub Accounts : ℕ → ℕ → ℕ → Ended → Type 0
Accounts total n size r =
    ((size ≤ n) × (r.left ≡ []) × (r.total_bytes ≡ total + size))
    ⊎ ((n < size) × (0 < length r.left) × (r.total_bytes ≡ total + n) × (left_bytes r + n ≡ size))

-- A request whose bios are consistent: the loop does not fault for any number of bytes. If they are at
-- least the bytes of all bios, every bio has ended and these bytes are counted; if they are fewer, some
-- bio is left, exactly the bytes given are counted, and the bytes left with them make up the whole.
pub end_bios-Accounts :
    (error : Bool) (total n : ℕ) (bios : List StructBio)
    → AllConsistent bios
    → (r : Ended) × (end_bios error total n bios ≡ some r) × Accounts total n (total_size bios) r
unfolding end_bios Accounts
end_bios-Accounts error total n [] c = (
  record { completed = []; left = []; total_bytes = total; in_bio = none },
  refl,
  inl (omega arith, refl, omega arith),
)
end_bios-Accounts error total n (bio ∷ bios) c = elim (Bool-cases (leb bio.bi_size n)) [
  | inr fewer ↦
      let (p, e, f, g, h) = bio_total bio total n c.0 (ground (arith, fewer)) in
      (
        record {
          completed = [];
          left = p.bio ∷ bios;
          total_bytes = p.total_bytes;
          in_bio = some p;
        },
        ground (arith, fewer, e),
        inr (ground (arith, fewer), omega arith, f, ground (arith, fewer, g, h)),
      )
  | inl whole ↦ elim (Bool-cases (n == bio.bi_size)) [
    | inl exact ↦ (
      record {
        completed = bio_endio bio bio.bi_size error ∷ [];
        left = bios;
        total_bytes = total + bio.bi_size;
        in_bio = none;
      },
      rw (whole, exact) refl,
      exactly bios (ground (arith, exact)) c.1,
    )
    | inr more ↦
        let (r, e, a) = end_bios-Accounts error (total + bio.bi_size) (n - bio.bi_size) bios c.1 in
        (
          also (bio_endio bio bio.bi_size error) r,
          ground (arith, whole, more, e),
          elim a [
            | inl (f, g, h) ↦ inl (ground (arith, f, whole), g, omega (arith, h))
            | inr (f, g, h, i) ↦
                inr
                  (ground (arith, f, whole), g, ground (arith, h, whole), ground (arith, i, whole))
          ],
        )
  ]
]
  where
    exactly :
        (bios : List StructBio)
        → n ≡ bio.bi_size
        → AllConsistent bios
        → Accounts total n (bio.bi_size + total_size bios) (record {
          completed = bio_endio bio bio.bi_size error ∷ [];
          left = bios;
          total_bytes = total + bio.bi_size;
          in_bio = none;
        })
    exactly [] e c = inl (omega (arith, e), refl, omega arith)
    exactly (b ∷ bs) e c =
        let positive = c.0.some_left in
        inr (omega (arith, e, positive), omega arith, omega (arith, e), omega (arith, e))
