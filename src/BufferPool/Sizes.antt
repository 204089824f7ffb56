-- ===== src/BufferPool/Sizes.antt =====
-- pkg/pool/buffer_pool.go: the sizes of the buffers that a pool hands out.
use go_core_lab.Common.{
  ℕ, ◌≤◌, ◌≡◌, refl, Bool-cases, inl, inr, ◌++◌, List, [], ◌∷◌, All, leb, leb→le, arith,
}
use go_core_lab.BufferPool.{
  Buffer, put_buffer, Call, got, PoolStep, get_kept, get_new, give_back, lose, PoolReaches, began,
  went_on,
}

-- A buffer of the size of the pool, whatever its capacity beyond.
pub record Whole (size : ℕ) (b : Buffer) : Type 0 where
  pub len : b.len ≡ size
  pub cap : size ≤ b.cap

all_without :
    {size : ℕ} (before : List Buffer) (b : Buffer) (behind : List Buffer)
    → All (Whole size) (before ++ (b ∷ behind))
    → Whole size b × All (Whole size) (before ++ behind)
all_without [] b behind all = all
all_without (x ∷ before) b behind (whole, all) =
    let (taken, rest) = all_without before b behind all in (taken, (whole, rest))

PoolStep-Whole :
    {size : ℕ} {pool pool' : List Buffer} {c : Call}
    → PoolStep size pool c pool'
    → All (Whole size) pool
    → All (Whole size) pool'
unfolding put_buffer
PoolStep-Whole (get_kept before behind b) all = (all_without before b behind all).1
PoolStep-Whole (get_new pool) all = all
PoolStep-Whole {size} (give_back pool b) all = elim (Bool-cases (leb size b.cap)) [
  | inl fits ↦ rw fits (record { len = refl; cap = leb→le size b.cap fits }, all)
  | inr small ↦ rw small all
]
PoolStep-Whole (lose before behind b) all = (all_without before b behind all).1

PoolReaches-Whole : {size : ℕ} {pool : List Buffer} → PoolReaches size pool → All (Whole size) pool
PoolReaches-Whole began = tt
PoolReaches-Whole (went_on r s) = PoolStep-Whole s (PoolReaches-Whole r)

-- Every buffer that a pool hands out has the length of the pool's buffers and at least that
-- capacity, whatever buffers were put into it before.
pub got-Whole :
    {size : ℕ} {pool pool' : List Buffer} {b : Buffer}
    → PoolReaches size pool
    → PoolStep size pool (got b) pool'
    → Whole size b
got-Whole {size} r (get_kept before behind b) =
    (all_without before b behind (PoolReaches-Whole r)).0
got-Whole {size} r (get_new pool) = record { len = refl; cap = omega arith }
