-- ===== src/Kernel.antt =====
-- What the block layer calls and this repository does not hold: <linux/rbtree.h>, <linux/hash.h>,
-- <linux/jiffies.h> and the request macros of <linux/blkdev.h>. Each is a parameter.
use ucsb_disk_profiling.Prelude.{
  ℕ, ◌<◌, ◌≡◌, Bool, Option, List, [], ◌∷◌, ◌++◌, count, remove, after, rejoin,
}
use ucsb_disk_profiling.Block.{Request}

-- A red-black tree without its colours.
pub data Tree : Type 0 where
  leaf : Tree
  node : Tree → ℕ → Tree → Tree

-- The nodes in the order of `rb_next`.
abbrev pub inorder : Tree → List ℕ
inorder leaf = []
inorder (node l n r) = inorder l ++ (n ∷ inorder r)

-- `rb_insert_color` and `rb_erase` keep the order of the other nodes, and `rb_next` and `rb_prev`
-- follow that order.
pub record Kernel : Type 0 where
  pub hash_long : ℕ → ℕ → ℕ
  pub time_after : ℕ → ℕ → Bool
  pub time_before : ℕ → ℕ → Bool
  pub rq_mergeable : Request → Bool
  pub blk_fs_request : Request → Bool
  pub rb_insert_color : ℕ → Tree → Tree
  pub rb_erase : ℕ → Tree → Tree
  pub rb_next : ℕ → Tree → Option ℕ
  pub rb_prev : ℕ → Tree → Option ℕ
  pub inorder-rb_insert_color : (n : ℕ) (t : Tree) → inorder (rb_insert_color n t) ≡ inorder t
  pub inorder-rb_erase :
      (n : ℕ) (t : Tree) → 0 < count n (inorder t) → inorder (rb_erase n t) ≡ remove n (inorder t)
  pub rb_next-after :
      (n : ℕ) (t : Tree) → 0 < count n (inorder t) → rb_next n t ≡ after n (inorder t)
  pub rb_prev-after :
      (n : ℕ) (t : Tree) → 0 < count n (inorder t) → rb_prev n t ≡ after n (rejoin (inorder t) [])
