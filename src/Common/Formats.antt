-- ===== src/Common/Formats.antt =====
-- Tables: entries of one size, one behind the other, and the loop that reads them back.
use Prim.Native.Nat.{ℕ, ◌+◌, ◌*◌}
use mathlib.Core.Path.{◌≡◌, refl, ◌∙◌}
use mathlib.Core.List.{List, [], ◌∷◌, ◌++◌, append_assoc}
use native.Mathlib.Omega.{arith}
use go_core_lab.Common.Lists.{All, length, length-append}
use go_core_lab.Common.Outcome.{Result, ok, ◌>>=◌, wrap}
use go_core_lab.Common.Slices.{Bytes}
use go_core_lab.Common.Streams.{IoError, Reader, remaining, read_full, read_full_at}
use go_core_lab.Common.Fields.{table}

-- How the entries `A` of a table are written and read: `entry` finds entry number `i` among the
-- bytes of the table, if that entry is one that is kept.
pub record Format (E A : Type 0) : Type 1 where
  pub Kept : A → Type 0
  pub number : A → ℕ
  pub width : ℕ
  pub encode : A → Bytes
  pub length-encode : (x : A) → length (encode x) ≡ width
  pub entry : Bytes → ℕ → Result E A
  pub entry_at :
      (start rest : Bytes) (x : A) (i : ℕ)
      → length start ≡ i * width
      → number x ≡ i
      → Kept x
      → entry (start ++ (encode x ++ rest)) i ≡ ok x

unfoldable pub encode_table : {A : Type 0} → (A → Bytes) → List A → Bytes
encode_table enc [] = []
encode_table enc (x ∷ xs) = enc x ++ encode_table enc xs

-- The entries carry their place in the table.
unfoldable pub Numbered : {A : Type 0} → (A → ℕ) → ℕ → List A → Type 0
Numbered number i [] = Unit
Numbered number i (x ∷ xs) = (number x ≡ i) × Numbered number (i + 1) xs

module _ {E A : Type 0} (F : Format E A) where
  length-encode_table : (xs : List A) → length (encode_table F.encode xs) ≡ length xs * F.width
  unfolding encode_table
  length-encode_table [] = omega arith
  length-encode_table (x ∷ xs) =
      length-append (F.encode x) (encode_table F.encode xs)
      ∙ rw (F.length-encode x, length-encode_table xs) (ground arith)

  table_from :
      (start : Bytes) (xs : List A) (i : ℕ)
      → length start ≡ i * F.width
      → Numbered F.number i xs
      → All F.Kept xs
      → table (F.entry (start ++ encode_table F.encode xs)) (length xs) i ≡ ok xs
  unfolding table encode_table Numbered
  table_from start [] i len nums ps = refl
  table_from start (x ∷ xs) i len (num, nums) (p, ps) =
      let rest = table_from (start ++ F.encode x) xs (i + 1) next nums ps in
      let rest = rw (append_assoc start (F.encode x) (encode_table F.encode xs)) at rest in
      rw (F.entry_at start (encode_table F.encode xs) x i len num p, encode_table, rest)
    where
      next : length (start ++ F.encode x) ≡ (i + 1) * F.width
      next = length-append start (F.encode x) ∙ rw (len, F.length-encode x) (ground arith)

  -- A loop over the bytes of a table gives back its entries.
  pub table-encode :
      (xs : List A)
      → Numbered F.number 0 xs
      → All F.Kept xs
      → table (F.entry (encode_table F.encode xs)) (length xs) 0 ≡ ok xs
  table-encode xs nums ps = table_from [] xs 0 (omega arith) nums ps

  -- So does the loop behind a ReadFull of the whole table.
  pub read_table :
      (fails : IoError → E) (xs : List A) (rest : Bytes) (r : Reader)
      → remaining r ≡ encode_table F.encode xs ++ rest
      → Numbered F.number 0 xs
      → All F.Kept xs
      → (wrap fails (read_full (length xs * F.width) r) >>= λ (buf, r).
          table (F.entry buf) (length xs) 0)
        ≡ ok xs
  read_table fails xs rest r here nums ps = rw (
    read_full_at (encode_table F.encode xs) rest (length xs * F.width) r (length-encode_table xs)
        here,
    table-encode xs nums ps,
  )
