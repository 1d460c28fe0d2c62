-- ===== src/Blk/Tags/Least.antt =====
-- The tag that blk_queue_start_tag of ucsb-io/ucsb-io-2.5.67/drivers/block/ll_rw_blk.c gives.
use ucsb_disk_profiling.Prelude.{
  ℕ, zero, suc, ◌+◌, ◌*◌, ◌/◌, ◌≤◌, ◌<◌, ◌≡◌, ◌⊎◌, inl, inr, refl, none, some, Bool, true, false,
  ltb, leb, ◌==◌, arith,
}
use ucsb_disk_profiling.Prelude.Tests.{Bool-cases}
use ucsb_disk_profiling.Blk.Tags.{
  QueueTags, tags_per_long, first_clear, find_word, exhausted, found,
}

-- The bitmap has a word past the last full one, and its bits from the depth on are set.
pub record HasGuard (bqt : QueueTags) : Type 0 where
  pub length : bqt.words ≡ bqt.max_depth / tags_per_long + 1
  pub guard : (t : ℕ) → bqt.max_depth ≤ t → bqt.tag_map t ≡ true

-- `t` is the first clear bit from `a` on.
pub record IsFirst (map : ℕ → Bool) (a t : ℕ) : Type 0 where
  pub from : a ≤ t
  pub clear : map t ≡ false
  pub before : (u : ℕ) → a ≤ u → u < t → map u ≡ true

abbrev pub AllSet : (ℕ → Bool) → ℕ → ℕ → Type 0
AllSet map a b = (u : ℕ) → a ≤ u → u < b → map u ≡ true

beyond :
    (map : ℕ → Bool) (a : ℕ)
    → map a ≡ true
    → (u : ℕ) → a ≤ u
    → (a + 1 ≤ u → map u ≡ true)
    → map u ≡ true
beyond map a full u m later = elim (Bool-cases (u == a)) [
  | inl same ↦ let e : u ≡ a = ground (arith, same) in rw e full
  | inr other ↦ later (ground (arith, other, m))
]

first_clear_cases :
    (map : ℕ → Bool) (a n : ℕ)
    → ((t : ℕ) × (first_clear map a n ≡ some t) × (t < a + n) × IsFirst map a t)
      ⊎ ((first_clear map a n ≡ none) × AllSet map a (a + n))
unfolding first_clear
first_clear_cases map a zero = inr (refl, λ u l h. absurd (omega arith))
first_clear_cases map a (suc n) = elim (Bool-cases (map a)) [
  | inr clear ↦ inl (
    a,
    rw clear refl,
    omega arith,
    record { from = omega arith; clear = clear; before = λ u l h. absurd (omega arith) },
  )
  | inl full ↦ elim (first_clear_cases map (a + 1) n) [
    | inl (t, e, l, f) ↦ inl (
      t,
      rw full e,
      omega (arith, l),
      record {
        from = omega (arith, f.from);
        clear = f.clear;
        before = λ u m h. beyond map a full u m (λ (n : a + 1 ≤ u). f.before u n h);
      },
    )
    | inr (e, all) ↦
        inr (
          rw full e,
          λ u m h. beyond map a full u m (λ (n : a + 1 ≤ u). all u n (omega (arith, h))),
        )
  ]
]

module _ (bqt : QueueTags) (g : HasGuard bqt) where
  -- From the word at `64 * w` on, where all tags before it are in use.
  pub find_word_cases :
      (left w : ℕ)
      → left + w ≡ bqt.words
      → w ≤ bqt.max_depth / tags_per_long
      → AllSet bqt.tag_map 0 (w * tags_per_long)
      → ((t : ℕ) × (find_word bqt left (w * tags_per_long) ≡ some (found t))
          × (t < bqt.max_depth)
          × IsFirst bqt.tag_map 0 t)
        ⊎ ((find_word bqt left (w * tags_per_long) ≡ some exhausted)
            × AllSet bqt.tag_map 0 bqt.max_depth)
  unfolding find_word
  find_word_cases zero w e h all = absurd (omega (arith, e, h, g.length))
  find_word_cases (suc left) w e h all =
      elim (first_clear_cases bqt.tag_map (w * tags_per_long) tags_per_long) [
        | inl (t, f, l, first) ↦ inl (
          t,
          rw (find_word, f) refl,
          below t first.clear,
          record {
            from = omega arith;
            clear = first.clear;
            before = λ u m k. joined t u all first.before k;
          },
        )
        | inr (f, full) ↦
            let next : (w * tags_per_long) + tags_per_long ≡ (w + 1) * tags_per_long =
              omega arith in
            elim (Bool-cases (leb bqt.max_depth (w * tags_per_long + tags_per_long))) [
              | inl last ↦ inr (
                rw (find_word, f, last) refl,
                λ u m k.
                    joined (w * tags_per_long + tags_per_long) u all full (ground (arith, last, k)),
              )
              | inr more ↦
                  let deeper : w + 1 ≤ bqt.max_depth / tags_per_long = ground (arith, more) in
                  let rest = find_word_cases left (w + 1) (omega (arith, e)) deeper (λ u m k.
                    joined (w * tags_per_long + tags_per_long) u all full (omega (arith, k))) in
                  elim rest [
                    | inl (t, r, l, first) ↦ inl (t, rw (find_word, f, more) (rw next r), l, first)
                    | inr (r, full') ↦ inr (rw (find_word, f, more) (rw next r), full')
                  ]
            ]
      ]
    where
      below : (t : ℕ) → bqt.tag_map t ≡ false → t < bqt.max_depth
      below t clear = elim (Bool-cases (ltb t bqt.max_depth)) [
        | inl yes' ↦ ground (arith, yes')
        | inr no' ↦ absurd (ground (arith, clear, g.guard t (ground (arith, no'))))
      ]

      joined :
          (b u : ℕ)
          → ((v : ℕ) → 0 ≤ v → v < w * tags_per_long → bqt.tag_map v ≡ true)
          → ((v : ℕ) → w * tags_per_long ≤ v → v < b → bqt.tag_map v ≡ true)
          → u < b
          → bqt.tag_map u ≡ true
      joined b u low high h = elim (Bool-cases (ltb u (w * tags_per_long))) [
        | inl under ↦ low u (omega arith) (ground (arith, under))
        | inr over ↦ high u (ground (arith, over)) h
      ]
