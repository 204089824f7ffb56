-- ===== src/BufferPool/Tests.antt =====
-- pkg/pool/buffer_pool.go: a larger buffer that is put back and handed out again.
use go_core_lab.Common.{◌≡◌, refl, [], ◌∷◌}
use go_core_lab.BufferPool.{
  Buffer, small_buffer_size, put_buffer, PoolReaches, began, went_on, get_kept, give_back,
}
use go_core_lab.BufferPool.Sizes.{Whole, got-Whole}

abbrev large : Buffer
large = record { len = 10; cap = 8192 }

abbrev cut : Buffer
cut = record { len = 4096; cap = 8192 }

put_large : put_buffer small_buffer_size large [] ≡ cut ∷ []
unfolding put_buffer
put_large = refl

after_put : PoolReaches small_buffer_size (cut ∷ [])
unfolding put_buffer
after_put = went_on began (give_back [] large)

got-Whole_example : Whole small_buffer_size cut
got-Whole_example = got-Whole after_put (get_kept [] [] cut)
