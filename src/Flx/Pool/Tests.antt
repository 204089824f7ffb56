-- ===== src/Flx/Pool/Tests.antt =====
-- internal/binary/flx/pool.go: a pool of four constants.
use go_core_lab.Common.{
  ◌≡◌, true, [], ◌∷◌, List, All, ok, Reader, new_reader, remaining, arith, sym, append-nil,
}
use go_core_lab.Flx.Pool.{decode_pool}
use go_core_lab.Flx.Pool.RoundTrip.{
  Literal, null_lit, int_lit, symbol_lit, bool_lit, FitsPool, pool_bytes, numbered,
  decode_pool-pool_bytes,
}

abbrev literals : List Literal
literals =
    int_lit 0xffffffffffffffff
    ∷ symbol_lit (109 ∷ 97 ∷ 105 ∷ 110 ∷ [])
    ∷ bool_lit true
    ∷ null_lit
    ∷ []

literals_fit : All FitsPool literals
unfolding FitsPool
literals_fit = (omega arith, (omega arith, (tt, (tt, tt))))

decode_pool-pool_bytes_example :
    (r' : Reader) × (decode_pool (new_reader (pool_bytes literals)) 4
      ≡ ok (record { entries = numbered 0 literals }, r'))
    × (remaining r' ≡ [])
decode_pool-pool_bytes_example =
    decode_pool-pool_bytes literals [] (new_reader (pool_bytes literals)) literals_fit
      (sym (append-nil (pool_bytes literals)))
