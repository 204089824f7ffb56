-- ===== src/Elf/Safety/Entries.antt =====
-- internal/binary: the entries of the tables are read within the bounds of their buffers.
use native.Mathlib.Nat.{mul-le-mul_right}
use go_core_lab.Common.{
  ℕ, ◌+◌, ◌*◌, ◌≤◌, Bytes, List, length, ByteOrder, Result, ◌>>=◌, wrap, Reader, IoError, read_full,
  table, IsSafe, >>=-IsSafe, wrap-IsSafe, uint-IsSafe, index-IsSafe, table-IsSafe, read_full-IsSafe,
  length-read_full, wrap-eq-ok, arith,
}
use go_core_lab.Elf.Types.{Section}
use go_core_lab.Elf.Sections.{section_64, section_32}
use go_core_lab.Elf.Segments.{segment_64, segment_32}
use go_core_lab.Elf.Symbols.{symbol_64, symbol_32}

-- A loop over the entries of a buffer that ReadFull has filled.
pub loop-IsSafe :
    {E A : Type 0} (width : ℕ) (entry : Bytes → ℕ → Result E A)
    → ((buf : Bytes) (i : ℕ) → i * width + width ≤ length buf → IsSafe (entry buf i))
    → (fails : IoError → E) (n : ℕ) (r : Reader)
    → IsSafe (wrap fails (read_full (n * width) r) >>= λ (buf, r). table (entry buf) n 0)
loop-IsSafe width entry safe fails n r =
    >>=-IsSafe (wrap fails (read_full (n * width) r)) _
      (wrap-IsSafe fails _ (read_full-IsSafe (n * width) r))
      (λ (buf, r') e. table-IsSafe (entry buf) n 0 (λ j h.
        let len = length-read_full (n * width) r (wrap-eq-ok fails _ e) in
        let up : j + 1 ≤ n = omega arith in
        safe buf j (ground (arith, mul-le-mul_right width up, len))))

module _ (bo : ByteOrder) (buf : Bytes) (i : ℕ) where
  pub section_64-IsSafe : i * 64 + 64 ≤ length buf → IsSafe (section_64 bo buf i)
  unfolding section_64 IsSafe
  section_64-IsSafe h = uint-IsSafe bo 4 buf (i * 64) _ (omega arith) (λ name_off.
      uint-IsSafe bo 4 buf (i * 64 + 4) _ (omega arith) (λ sh_type.
        uint-IsSafe bo 8 buf (i * 64 + 8) _ (omega arith) (λ flags.
          uint-IsSafe bo 8 buf (i * 64 + 16) _ (omega arith) (λ addr.
            uint-IsSafe bo 8 buf (i * 64 + 24) _ (omega arith) (λ offset.
              uint-IsSafe bo 8 buf (i * 64 + 32) _ (omega arith) (λ size.
                uint-IsSafe bo 4 buf (i * 64 + 40) _ (omega arith) (λ link.
                  uint-IsSafe bo 4 buf (i * 64 + 44) _ (omega arith) (λ info.
                    uint-IsSafe bo 8 buf (i * 64 + 48) _ (omega arith) (λ addr_align.
                      uint-IsSafe bo 8 buf (i * 64 + 56) _ (omega arith) (λ ent_size. tt))))))))))

  pub section_32-IsSafe : i * 40 + 40 ≤ length buf → IsSafe (section_32 bo buf i)
  unfolding section_32 IsSafe
  section_32-IsSafe h = uint-IsSafe bo 4 buf (i * 40) _ (omega arith) (λ name_off.
      uint-IsSafe bo 4 buf (i * 40 + 4) _ (omega arith) (λ sh_type.
        uint-IsSafe bo 4 buf (i * 40 + 8) _ (omega arith) (λ flags.
          uint-IsSafe bo 4 buf (i * 40 + 12) _ (omega arith) (λ addr.
            uint-IsSafe bo 4 buf (i * 40 + 16) _ (omega arith) (λ offset.
              uint-IsSafe bo 4 buf (i * 40 + 20) _ (omega arith) (λ size.
                uint-IsSafe bo 4 buf (i * 40 + 24) _ (omega arith) (λ link.
                  uint-IsSafe bo 4 buf (i * 40 + 28) _ (omega arith) (λ info.
                    uint-IsSafe bo 4 buf (i * 40 + 32) _ (omega arith) (λ addr_align.
                      uint-IsSafe bo 4 buf (i * 40 + 36) _ (omega arith) (λ ent_size. tt))))))))))

  pub segment_64-IsSafe : i * 56 + 56 ≤ length buf → IsSafe (segment_64 bo buf i)
  unfolding segment_64 IsSafe
  segment_64-IsSafe h = uint-IsSafe bo 4 buf (i * 56) _ (omega arith) (λ p_type.
      uint-IsSafe bo 4 buf (i * 56 + 4) _ (omega arith) (λ flags.
        uint-IsSafe bo 8 buf (i * 56 + 8) _ (omega arith) (λ offset.
          uint-IsSafe bo 8 buf (i * 56 + 16) _ (omega arith) (λ v_addr.
            uint-IsSafe bo 8 buf (i * 56 + 24) _ (omega arith) (λ p_addr.
              uint-IsSafe bo 8 buf (i * 56 + 32) _ (omega arith) (λ file_size.
                uint-IsSafe bo 8 buf (i * 56 + 40) _ (omega arith) (λ mem_size.
                  uint-IsSafe bo 8 buf (i * 56 + 48) _ (omega arith) (λ align. tt))))))))

  pub segment_32-IsSafe : i * 32 + 32 ≤ length buf → IsSafe (segment_32 bo buf i)
  unfolding segment_32 IsSafe
  segment_32-IsSafe h = uint-IsSafe bo 4 buf (i * 32) _ (omega arith) (λ p_type.
      uint-IsSafe bo 4 buf (i * 32 + 4) _ (omega arith) (λ offset.
        uint-IsSafe bo 4 buf (i * 32 + 8) _ (omega arith) (λ v_addr.
          uint-IsSafe bo 4 buf (i * 32 + 12) _ (omega arith) (λ p_addr.
            uint-IsSafe bo 4 buf (i * 32 + 16) _ (omega arith) (λ file_size.
              uint-IsSafe bo 4 buf (i * 32 + 20) _ (omega arith) (λ mem_size.
                uint-IsSafe bo 4 buf (i * 32 + 24) _ (omega arith)
                  (λ flags. uint-IsSafe bo 4 buf (i * 32 + 28) _ (omega arith) (λ align. tt))))))))

  module _ (sections : List Section) (strings : Bytes) where
    pub symbol_64-IsSafe : i * 24 + 24 ≤ length buf → IsSafe (symbol_64 bo sections strings buf i)
    unfolding symbol_64 IsSafe
    symbol_64-IsSafe h = uint-IsSafe bo 4 buf (i * 24) _ (omega arith) (λ name_off.
        index-IsSafe buf (i * 24 + 4) _ (omega arith) (λ info.
          index-IsSafe buf (i * 24 + 5) _ (omega arith) (λ other.
            uint-IsSafe bo 2 buf (i * 24 + 6) _ (omega arith) (λ shndx.
              uint-IsSafe bo 8 buf (i * 24 + 8) _ (omega arith)
                (λ value. uint-IsSafe bo 8 buf (i * 24 + 16) _ (omega arith) (λ size. tt))))))

    pub symbol_32-IsSafe : i * 16 + 16 ≤ length buf → IsSafe (symbol_32 bo sections strings buf i)
    unfolding symbol_32 IsSafe
    symbol_32-IsSafe h = uint-IsSafe bo 4 buf (i * 16) _ (omega arith) (λ name_off.
        uint-IsSafe bo 4 buf (i * 16 + 4) _ (omega arith) (λ value.
          uint-IsSafe bo 4 buf (i * 16 + 8) _ (omega arith) (λ size.
            index-IsSafe buf (i * 16 + 12) _ (omega arith) (λ info.
              index-IsSafe buf (i * 16 + 13) _ (omega arith)
                (λ other. uint-IsSafe bo 2 buf (i * 16 + 14) _ (omega arith) (λ shndx. tt))))))
