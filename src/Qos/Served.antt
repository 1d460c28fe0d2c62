-- ===== src/Qos/Served.antt =====
-- What the ioctls of ucsb-io/ucsb-io-2.5.67/fs/ioctl.c do to the parameters of a file.
use ucsb_disk_profiling.Prelude.{
  ℕ, ◌≡◌, ◌⊎◌, inl, inr, refl, Option, none, some, Bool, true, false, ℤ, pos, ◌>>=◌, Option-cases,
}
use ucsb_disk_profiling.Block.{UcsbIo, best_effort, soft_rt}
use ucsb_disk_profiling.Qos.{
  Allocator, FileStore, Reply, Command, get_qos, set_best_effort, set_soft_rt, set_priority, efault,
  qos_of, edit_qos, ensure_qos, copy_field, ucsb_ioctl, init_soft_rt, init_priority,
}
use ucsb_disk_profiling.Qos.Owned.{
  IsOwned, Changed, Changed-trans, owner, edit-Changed, new-Changed,
}

-- The parameters that a command is to leave where it finds `q`, and whether its copy is cut short.
abbrev pub params : {M : Type 0} → Allocator M → M → Command → ℕ → UcsbIo → UcsbIo
params k m get_qos arg q = q
params k m set_best_effort arg q = record q { type = best_effort }
params k m set_soft_rt arg q = record q { type = soft_rt; rate = (k.copy_from_user m arg q.rate).0 }
params k m set_priority arg q = record q { priority = (k.copy_from_user m arg q.priority).0 }

abbrev pub is_cut : {M : Type 0} → Allocator M → M → Command → ℕ → UcsbIo → Bool
is_cut k m get_qos arg q = (k.copy_to_user m arg q).1
is_cut k m set_best_effort arg q = false
is_cut k m set_soft_rt arg q = (k.copy_from_user m arg q.rate).1
is_cut k m set_priority arg q = (k.copy_from_user m arg q.priority).1

-- The command returns, with its error code, and changes the parameters of `filp` to those it means.
unfoldable pub Serves :
    {M : Type 0} → Allocator M → M → FileStore → Command → ℕ → ℕ → UcsbIo → Type 0
Serves {M = M} k m s cmd filp arg q =
    (r : Reply M) × (ucsb_ioctl k m s cmd filp arg ≡ some r)
    × (r.error ≡ efault (is_cut k m cmd arg q))
    × Changed s r.store filp (params k m cmd arg q)

-- What comes of a command that finds `q`: it is served, but UCSB_IO_BESTEFFORT is ignored, with success as
-- its result.
unfoldable pub Answers :
    {M : Type 0} → Allocator M → M → FileStore → Command → ℕ → ℕ → UcsbIo → Type 0
Answers k m s get_qos filp arg q = Serves k m s get_qos filp arg q
Answers k m s set_best_effort filp arg q =
    ucsb_ioctl k m s set_best_effort filp arg ≡ some (record { error = pos 0; user = m; store = s })
Answers k m s set_soft_rt filp arg q = Serves k m s set_soft_rt filp arg q
Answers k m s set_priority filp arg q = Serves k m s set_priority filp arg q

bind-some :
    {A B : Type 0} (o : Option A) (f : A → Option B) (a : A) (b : B)
    → o ≡ some a
    → f a ≡ some b
    → (o >>= f) ≡ some b
bind-some o f a b e h = rw e h

ensure-found :
    {M : Type 0} (k : Allocator M) (s : FileStore) (filp p : ℕ) (f : UcsbIo → UcsbIo)
    → s.f_qos filp ≡ some p
    → ensure_qos k s filp f ≡ some s
unfolding ensure_qos
ensure-found k s filp p f e = rw (ensure_qos, e) refl

pub copy-Changed :
    {M : Type 0} (k : Allocator M) (m : M) (s : FileStore) (filp arg : ℕ) (field : UcsbIo → ℤ)
    (assign : ℤ → UcsbIo → UcsbIo) (q : UcsbIo)
    → IsOwned s
    → qos_of s filp ≡ some q
    → ((z : ℤ) → (assign z q).filp ≡ q.filp)
    → (r : Reply M) × (copy_field k m s filp arg field assign ≡ some r)
      × (r.error ≡ efault (k.copy_from_user m arg (field q)).1)
      × Changed s r.store filp (assign (k.copy_from_user m arg (field q)).0 q)
unfolding copy_field
copy-Changed k m s filp arg field assign q owned own kept =
    let copied = k.copy_from_user m arg (field q) in
    let edited = edit-Changed s filp q (assign copied.0) owned own (kept copied.0) in
    (
      record { error = efault copied.1; user = m; store = edited.0 },
      rw (own, edited.1) refl,
      refl,
      edited.2,
    )

-- UCSB_IO_GET_QOS, UCSB_IO_SOFT_RT and UCSB_IO_PRIORITY, where they find the parameters `q` of their file,
-- in a store where each file owns its parameters, return, with -EFAULT exactly where bytes are left
-- uncopied; the file's parameters become what the command says, those of every other file stay, and
-- each file still owns its own. UCSB_IO_BESTEFFORT, which finds parameters too, returns 0 and changes
-- nothing: the file keeps its type.
pub ioctl-Serves :
    {M : Type 0} (k : Allocator M) (m : M) (s : FileStore) (cmd : Command) (filp arg : ℕ)
    (q : UcsbIo)
    → IsOwned s
    → qos_of s filp ≡ some q
    → Answers k m s cmd filp arg q
unfolding ucsb_ioctl Serves Answers
ioctl-Serves k m s get_qos filp arg q owned own =
    let pointer = owner s filp q own in
    let copied = k.copy_to_user m arg q in
    (
      record { error = efault copied.1; user = copied.0; store = s },
      rw (pointer.1, pointer.2) refl,
      refl,
      record { owned = owned; own = own; others = λ g ne. refl },
    )
ioctl-Serves k m s set_best_effort filp arg q owned own = rw (owner s filp q own).1 refl
ioctl-Serves k m s set_soft_rt filp arg q owned own =
    let pointer = owner s filp q own in
    let typed = edit-Changed s filp q (λ q. record q { type = soft_rt }) owned own refl in
    let copied =
      copy-Changed k m typed.0 filp arg (λ q. q.rate) (λ rate q. record q { rate = rate })
        (record q { type = soft_rt }) typed.2.owned typed.2.own (λ z. refl) in
    (
      copied.0,
      bind-some _ _ s copied.0 (ensure-found k s filp pointer.0 (init_soft_rt filp) pointer.1)
          (bind-some _ _ typed.0 copied.0 typed.1 copied.1),
      copied.2,
      Changed-trans typed.2 copied.3,
    )
ioctl-Serves k m s set_priority filp arg q owned own =
    let pointer = owner s filp q own in
    let copied =
      copy-Changed k m s filp arg (λ q. q.priority) (λ priority q. record q { priority = priority })
        q owned own (λ z. refl) in
    (
      copied.0,
      bind-some _ _ s copied.0 (ensure-found k s filp pointer.0 (init_priority filp) pointer.1)
          copied.1,
      copied.2,
      copied.3,
    )

-- What a command that allocates puts into the memory of kmalloc.
abbrev pub initial : Command → ℕ → UcsbIo → UcsbIo
initial get_qos filp q = q
initial set_best_effort filp q = q
initial set_soft_rt filp q = init_soft_rt filp q
initial set_priority filp q = init_priority filp q

abbrev pub allocates : Command → Bool
allocates get_qos = false
allocates set_best_effort = false
allocates set_soft_rt = true
allocates set_priority = true

-- UCSB_IO_SOFT_RT and UCSB_IO_PRIORITY on a file without parameters return if kmalloc gives memory;
-- the file then owns new parameters: those of the command, over the initial values, with what kmalloc
-- left in the other fields; the parameters of every other file stay.
pub ioctl-Serves_new :
    {M : Type 0} (k : Allocator M) (m : M) (s : FileStore) (cmd : Command) (filp arg p : ℕ)
    (q : UcsbIo)
    → IsOwned s
    → s.f_qos filp ≡ none
    → k.kmalloc s.qos ≡ some (p, q)
    → allocates cmd ≡ true
    → Serves k m s cmd filp arg (initial cmd filp q)
unfolding ucsb_ioctl Serves
ioctl-Serves_new k m s get_qos filp arg p q owned null given alloc = absurd (cc)
ioctl-Serves_new k m s set_best_effort filp arg p q owned null given alloc = absurd (cc)
ioctl-Serves_new k m s set_soft_rt filp arg p q owned null given alloc =
    let made = new-Changed k s filp p q (init_soft_rt filp) owned null given refl in
    let start = init_soft_rt filp q in
    let typed =
      edit-Changed made.0 filp start (λ q. record q { type = soft_rt }) made.2.owned made.2.own
        refl in
    let copied =
      copy-Changed k m typed.0 filp arg (λ q. q.rate) (λ rate q. record q { rate = rate })
        (record start { type = soft_rt }) typed.2.owned typed.2.own (λ z. refl) in
    (
      copied.0,
      bind-some _ _ made.0 copied.0 made.1 (bind-some _ _ typed.0 copied.0 typed.1 copied.1),
      copied.2,
      Changed-trans made.2 (Changed-trans typed.2 copied.3),
    )
ioctl-Serves_new k m s set_priority filp arg p q owned null given alloc =
    let made = new-Changed k s filp p q (init_priority filp) owned null given refl in
    let copied =
      copy-Changed k m made.0 filp arg (λ q. q.priority)
        (λ priority q. record q { priority = priority }) (init_priority filp q) made.2.owned
        made.2.own (λ z. refl) in
    (
      copied.0,
      bind-some _ _ made.0 copied.0 made.1 copied.1,
      copied.2,
      Changed-trans made.2 copied.3,
    )

-- UCSB_IO_BESTEFFORT never makes a file best-effort: on a file without parameters it dereferences
-- NULL, and on any other it changes nothing and returns 0.
pub set_best_effort_lem :
    {M : Type 0} (k : Allocator M) (m : M) (s : FileStore) (filp arg : ℕ)
    → ((s.f_qos filp ≡ none) × (ucsb_ioctl k m s set_best_effort filp arg ≡ none))
      ⊎ (ucsb_ioctl k m s set_best_effort filp arg
          ≡ some (record { error = pos 0; user = m; store = s }))
unfolding ucsb_ioctl edit_qos
set_best_effort_lem k m s filp arg = elim (Option-cases (s.f_qos filp)) [
  | inl e ↦ inl (e, rw (e, e) refl)
  | inr (p, e) ↦ inr (rw e refl)
]
