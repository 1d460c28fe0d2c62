-- ===== src/Segments/Bytes.antt =====
-- The bytes that the scatter table of a request stands for, in
-- ucsb-io/ucsb-io-2.5.67/drivers/block/ll_rw_blk.c.
use ucsb_disk_profiling.Prelude.{
  ℕ, zero, suc, ◌+◌, ◌%◌, ◌<◌, ◌≤◌, ◌≡◌, inl, inr, refl, sym, ap, ◌∙◌, Option, none, some, List, [],
  ◌∷◌, ◌++◌, rejoin, arith, ◌&&◌,
}
use mathlib.Core.List.{append_assoc, append-nil}
use ucsb_disk_profiling.Prelude.Tests.{Bool-cases}
use ucsb_disk_profiling.Block.{uint_mod, ulong_mod}
use ucsb_disk_profiling.Blk.Queue.{RequestQueue}
use ucsb_disk_profiling.Segments.{
  BioVec, PhysMap, Mapped, Scatter, bvec_to_phys, phys_mergeable, joins, new_scatter,
  extend_scatter, map_step, map_vecs,
}
use ucsb_disk_profiling.Segments.Count.{total_len}

-- The physical addresses of `n` bytes from `start` on, of 64 bits.
abbrev pub addresses : ℕ → ℕ → List ℕ
addresses start zero = []
addresses start (suc n) = start % ulong_mod ∷ addresses (start + 1) n

addresses-append :
    (start m n : ℕ) → addresses start (m + n) ≡ addresses start m ++ addresses (start + m) n
addresses-append start zero n =
    let e : 0 + n ≡ n = omega arith in let f : start + 0 ≡ start = omega arith in rw (e, f) refl
addresses-append start (suc m) n =
    let e : suc m + n ≡ suc (m + n) = omega arith in
    let f : start + suc m ≡ (start + 1) + m = omega arith in
    rw (e, f) (ap (λ l. start % ulong_mod ∷ l) (addresses-append (start + 1) m n))

-- Addresses count modulo 2^64.
addresses_same : (a b n : ℕ) → a % ulong_mod ≡ b % ulong_mod → addresses a n ≡ addresses b n
addresses_same a b zero e = refl
addresses_same a b (suc n) e =
    ap (λ x. x ∷ addresses (a + 1) n) e
    ∙ ap (λ l. b % ulong_mod ∷ l) (addresses_same (a + 1) (b + 1) n (omega (arith, e)))

module _ (k : PhysMap) where
  abbrev pub vec_start : BioVec → ℕ
  vec_start bv = k.page_to_phys bv.bv_page + bv.bv_offset

  abbrev pub scatter_start : Scatter → ℕ
  scatter_start s = k.page_to_phys s.page + s.offset

  -- The bytes of vectors, and of the entries of a table, in their order.
  abbrev pub vec_bytes : List BioVec → List ℕ
  vec_bytes [] = []
  vec_bytes (bv ∷ bvs) = addresses (vec_start bv) bv.bv_len ++ vec_bytes bvs

  abbrev pub scatter_bytes : List Scatter → List ℕ
  scatter_bytes [] = []
  scatter_bytes (s ∷ sg) = addresses (scatter_start s) s.length ++ scatter_bytes sg

  -- The bytes of a table whose latest entry is first.
  abbrev held : List Scatter → List ℕ
  held [] = []
  held (s ∷ sg) = held sg ++ addresses (scatter_start s) s.length

  pub scatter_bytes-rejoin :
      (xs ys : List Scatter) → scatter_bytes (rejoin xs ys) ≡ held xs ++ scatter_bytes ys
  scatter_bytes-rejoin [] ys = refl
  scatter_bytes-rejoin (x ∷ xs) ys =
      scatter_bytes-rejoin xs (x ∷ ys)
      ∙ sym (append_assoc (held xs) (addresses (scatter_start x) x.length) (scatter_bytes ys))

  -- The latest entry ends where the vector before ends.
  data EndsAt : Option BioVec → List Scatter → Type 0 where
    no_vec : {sg : List Scatter} → EndsAt none sg
    meets :
        {p : BioVec} {s : Scatter} {sg : List Scatter}
        → (scatter_start s + s.length) % ulong_mod ≡ (vec_start p + p.bv_len) % ulong_mod
        → EndsAt (some p) (s ∷ sg)

  abbrev last_length : List Scatter → ℕ
  last_length [] = 0
  last_length (s ∷ sg) = s.length

  -- A vector has been mapped behind a table of the latest length `n`.
  record Covers (n : ℕ) (sg : List Scatter) (bv : BioVec) (m : Mapped) : Type 0 where
    bytes : held m.sg ≡ held sg ++ addresses (vec_start bv) bv.bv_len
    ends : EndsAt m.bvprv m.sg
    short : last_length m.sg ≤ n + bv.bv_len

  -- An entry grows by bytes that begin where it ends.
  grown_bytes :
      (before : List ℕ) (start n next l : ℕ)
      → (start + n) % ulong_mod ≡ next % ulong_mod
      → before ++ addresses start (n + l) ≡ (before ++ addresses start n) ++ addresses next l
  grown_bytes before start n next l e =
      ap (λ x. before ++ x)
        (addresses-append start n l
          ∙ ap (λ x. addresses start n ++ x) (addresses_same (start + n) next l e))
      ∙ sym (append_assoc before (addresses start n) (addresses next l))

  module _ (q : RequestQueue) where
    new-Covers : (n : ℕ) (sg : List Scatter) (bv : BioVec) → Covers n sg bv (new_scatter k q sg bv)
    unfolding new_scatter
    new-Covers n sg bv = record { bytes = refl; ends = meets refl; short = omega arith }

    extend-Covers :
        (p : BioVec) (s : Scatter) (sg : List Scatter) (bv : BioVec)
        → (scatter_start s + s.length) % ulong_mod ≡ (vec_start p + p.bv_len) % ulong_mod
        → s.length + bv.bv_len < uint_mod
        → Covers s.length (s ∷ sg) bv (extend_scatter k q p (s ∷ sg) bv)
    unfolding extend_scatter joins phys_mergeable bvec_to_phys
    extend-Covers p s sg bv e l = elim (Bool-cases (q.cluster && joins k q p s.length bv)) [
      | inr apart ↦ rw apart (new-Covers s.length (s ∷ sg) bv)
      | inl joined ↦
          let exact : (s.length + bv.bv_len) % uint_mod ≡ s.length + bv.bv_len = omega (arith, l) in
          let next : (scatter_start s + s.length) % ulong_mod ≡ vec_start bv % ulong_mod =
            ground (arith, e, joined) in
          rw (joined, exact)
            (record {
              bytes =
                  grown_bytes (held sg) (scatter_start s) s.length (vec_start bv) bv.bv_len next;
              ends = meets (omega (arith, next));
              short = omega arith;
            })
    ]

    step-Covers :
        (b : Option BioVec) (sg : List Scatter) (bv : BioVec)
        → EndsAt b sg
        → last_length sg + bv.bv_len < uint_mod
        → Covers (last_length sg) sg bv (map_step k q (record { bvprv = b; sg = sg }) bv)
    unfolding map_step
    step-Covers none sg bv e l = new-Covers (last_length sg) sg bv
    step-Covers (some p) [] bv e l = new-Covers 0 [] bv
    step-Covers (some p) (s ∷ sg) bv (meets e) l = extend-Covers p s sg bv e l

    map_bytes :
        (b : Option BioVec) (sg : List Scatter) (bvs : List BioVec)
        → EndsAt b sg
        → last_length sg + total_len bvs < uint_mod
        → held (map_vecs k q (record { bvprv = b; sg = sg }) bvs).sg ≡ held sg ++ vec_bytes bvs
    unfolding map_vecs
    map_bytes b sg [] e l = sym (append-nil (held sg))
    map_bytes b sg (bv ∷ bvs) e l =
        let c = step-Covers b sg bv e (omega (arith, l)) in
        let m = map_step k q (record { bvprv = b; sg = sg }) bv in
        map_bytes m.bvprv m.sg bvs c.ends (omega (arith, l, c.short))
        ∙ ap (λ x. x ++ vec_bytes bvs) c.bytes
        ∙ append_assoc (held sg) (addresses (vec_start bv) bv.bv_len) (vec_bytes bvs)

    -- From an empty table, the entries in their order are the bytes of the vectors.
    pub mapped_bytes :
        (bvs : List BioVec)
        → total_len bvs < uint_mod
        → scatter_bytes (rejoin (map_vecs k q (record { bvprv = none; sg = [] }) bvs).sg [])
          ≡ vec_bytes bvs
    mapped_bytes bvs l =
        let sg = (map_vecs k q (record { bvprv = none; sg = [] }) bvs).sg in
        scatter_bytes-rejoin sg []
        ∙ append-nil (held sg)
        ∙ map_bytes none [] bvs no_vec (omega (arith, l))
