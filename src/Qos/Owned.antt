-- ===== src/Qos/Owned.antt =====
-- Each structure of parameters belongs to one file, kept by assignments and allocation.
use ucsb_disk_profiling.Prelude.{
  ℕ, ◌≡◌, ◌≢◌, inl, inr, ◌∙◌, none, some, ◌==◌, arith, ==_refl, Option-cases,
}
use ucsb_disk_profiling.Prelude.Tests.{Bool-cases}
use ucsb_disk_profiling.Block.{update, UcsbIo}
use ucsb_disk_profiling.Qos.{Allocator, FileStore, qos_of, edit_qos, ensure_qos}

-- `f_qos` of a file is NULL or points to live parameters that name the file.
unfoldable pub IsOwned : FileStore → Type 0
IsOwned s =
    (filp p : ℕ) → s.f_qos filp ≡ some p → (q : UcsbIo) × (s.qos p ≡ some q) × (q.filp ≡ some filp)

-- The parameters of `filp` are `q`, and those of the other files are as before.
pub record Changed (s s' : FileStore) (filp : ℕ) (q : UcsbIo) : Type 0 where
  pub owned : IsOwned s'
  pub own : qos_of s' filp ≡ some q
  pub others : (g : ℕ) → g ≢ filp → qos_of s' g ≡ qos_of s g

pub Changed-trans :
    {s s' s'' : FileStore} {filp : ℕ} {q q' : UcsbIo}
    → Changed s s' filp q
    → Changed s' s'' filp q'
    → Changed s s'' filp q'
Changed-trans a b = record {
  owned = b.owned;
  own = b.own;
  others = λ g ne. b.others g ne ∙ a.others g ne;
}

pub owner :
    (s : FileStore) (filp : ℕ) (q : UcsbIo)
    → qos_of s filp ≡ some q
    → (p : ℕ) × (s.f_qos filp ≡ some p) × (s.qos p ≡ some q)
unfolding qos_of
owner s filp q own = elim (Option-cases (s.f_qos filp)) [
  | inl e ↦ absurd (ground (arith, e, own))
  | inr (p, e) ↦ (p, e, ground (arith, e, own))
]

pub edit-Changed :
    (s : FileStore) (filp : ℕ) (q : UcsbIo) (f : UcsbIo → UcsbIo)
    → IsOwned s
    → qos_of s filp ≡ some q
    → (f q).filp ≡ q.filp
    → (s' : FileStore) × (edit_qos s filp f ≡ some s') × Changed s s' filp (f q)
unfolding qos_of edit_qos IsOwned
edit-Changed s filp q f owned own kept =
    let pointer = owner s filp q own in
    let p = pointer.0 in
    let live = owned filp p pointer.1 in
    let s' : FileStore = record s { qos = update s.qos p (some (f q)) } in
    (
      s',
      ground (arith, pointer.1, pointer.2),
      record {
        owned = λ g r e.
            let before = owned g r e in
            elim (Bool-cases (r == p)) [
              | inl same ↦ (
                f q,
                ground (arith, same),
                ground (arith, same, before.1, before.2, pointer.2, kept),
              )
              | inr other ↦ (before.0, ground (arith, other, before.1), before.2)
            ];
        own = ground (arith, pointer.1, ==_refl p);
        others = λ g ne. elim (Option-cases (s.f_qos g)) [
          | inl e ↦ ground (arith, e)
          | inr (r, e) ↦
              let before = owned g r e in
              ground (arith, e, before.1, before.2, live.1, live.2, pointer.2)
        ];
      },
    )

pub new-Changed :
    {M : Type 0} (k : Allocator M) (s : FileStore) (filp p : ℕ) (q : UcsbIo) (f : UcsbIo → UcsbIo)
    → IsOwned s
    → s.f_qos filp ≡ none
    → k.kmalloc s.qos ≡ some (p, q)
    → (f q).filp ≡ some filp
    → (s' : FileStore) × (ensure_qos k s filp f ≡ some s') × Changed s s' filp (f q)
unfolding qos_of ensure_qos IsOwned
new-Changed k s filp p q f owned null given named =
    let s' : FileStore = record s {
      f_qos = update s.f_qos filp (some p);
      qos = update s.qos p (some (f q));
    } in
    let fresh = k.kmalloc_fresh s.qos p q given in
    (
      s',
      ground (arith, null, given),
      record {
        owned = λ g r e. elim (Bool-cases (g == filp)) [
          | inl same ↦ (f q, ground (arith, same, e), ground (arith, same, named))
          | inr other ↦
              let before = owned g r (ground (arith, other, e)) in
              (before.0, ground (arith, before.1, fresh), before.2)
        ];
        own = ground (arith, ==_refl filp, ==_refl p);
        others = λ g ne. elim (Option-cases (s.f_qos g)) [
          | inl e ↦ ground (arith, e)
          | inr (r, e) ↦ let before = owned g r e in ground (arith, e, before.1, fresh)
        ];
      },
    )
