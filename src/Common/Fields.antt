-- ===== src/Common/Fields.antt =====
-- Records of integers as bytes: a layout is the list of the widths and values of its fields, and the
-- field behind a known prefix is read back at its offset.
use Prim.Native.Nat.{ℕ, zero, suc, ◌+◌, ◌^◌, ◌<◌}
use mathlib.Core.Path.{◌≡◌, refl, sym, ap, ◌∙◌}
use mathlib.Core.List.{List, [], ◌∷◌, ◌++◌, append_assoc}
use native.Mathlib.Omega.{arith}
use go_core_lab.Common.Lists.{length, length-append, take-append, drop-append}
use go_core_lab.Common.Outcome.{Result, ok, ◌>>=◌}
use go_core_lab.Common.Slices.{
  Bytes, byte, index, index_lem, ByteOrder, little_endian, big_endian, from_le, from_be, encode,
  decode, window, uint, uint_lem, length-encode, decode-encode,
}

-- `for i := 0; i < n; i++ { xs[i] = entry(i) }`, from `i` on with `n` to go.
unfoldable pub table {ℓ κ} :
    {E : Type ℓ} {A : Type κ} → (ℕ → Result E A) → ℕ → ℕ → Result E (List A)
table entry zero i = ok []
table entry (suc n) i = do x ← entry i; xs ← table entry n (i + 1); ok (x ∷ xs)

abbrev pub Layout : Type 0
Layout = List (ℕ × ℕ)

abbrev pub layout_size : Layout → ℕ
layout_size [] = 0
layout_size ((n, v) ∷ fs) = n + layout_size fs

unfoldable pub encode_layout : ByteOrder → Layout → Bytes
encode_layout o [] = []
encode_layout o ((n, v) ∷ fs) = encode o n v ++ encode_layout o fs

pub length-encode_layout :
    (o : ByteOrder) (fs : Layout) → length (encode_layout o fs) ≡ layout_size fs
unfolding encode_layout
length-encode_layout o [] = refl
length-encode_layout o ((n, v) ∷ fs) =
    length-append (encode o n v) (encode_layout o fs)
    ∙ rw (length-encode o n v, length-encode_layout o fs) refl

encode_layout-append :
    (o : ByteOrder) (fs gs : Layout)
    → encode_layout o (fs ++ gs) ≡ encode_layout o fs ++ encode_layout o gs
unfolding encode_layout
encode_layout-append o [] gs = refl
encode_layout-append o ((n, v) ∷ fs) gs =
    rw (encode_layout-append o fs gs) (sym (append_assoc (encode o n v) _ _))

-- What stands behind a known prefix is read at the prefix's length.
uint_behind {ℓ} :
    {E : Type ℓ} (o : ByteOrder) (p s q : Bytes) (n i : ℕ)
    → length p ≡ i
    → length s ≡ n
    → uint {E = E} o n (p ++ (s ++ q)) i ≡ ok (decode o s)
uint_behind o p s q n i hp hs =
    uint_lem o n (p ++ (s ++ q)) i (rw (length-append p, length-append s) (omega arith))
    ∙ rw (← hp, ← hs, drop-append p (s ++ q), take-append s q) refl

-- The field `v` behind the fields `before`, of a record that begins at `base` in a byte string.
module _ {ℓ} {E : Type ℓ} (o : ByteOrder) (start rest : Bytes) (base : ℕ)
    (len : length start ≡ base) where
  pub uint_field :
      (before after : Layout) (n v i : ℕ)
      → i ≡ base + layout_size before
      → v < 256 ^ n
      → uint {E = E} o n (start ++ (encode_layout o (before ++ ((n, v) ∷ after)) ++ rest)) i ≡ ok v
  uint_field before after n v i at small = rw (
    encode_layout-append o before ((n, v) ∷ after),
    encode_layout-cons,
    assoc,
    uint_behind o (start ++ encode_layout o before) (encode o n v) (encode_layout o after ++ rest) n
        i here (length-encode o n v),
    decode-encode o n v small,
  )
    where
      encode_layout-cons : encode_layout o ((n, v) ∷ after) ≡ encode o n v ++ encode_layout o after
      encode_layout-cons = unfold encode_layout in refl

      here : length (start ++ encode_layout o before) ≡ i
      here = rw (length-append start, length-encode_layout o before) (omega arith)

      assoc :
          start ++ ((encode_layout o before ++ (encode o n v ++ encode_layout o after)) ++ rest)
          ≡ (start ++ encode_layout o before) ++ (encode o n v ++ (encode_layout o after ++ rest))
      assoc = simp append_assoc

window_one : (b : Bytes) (i : ℕ) → i < length b → window b i 1 ≡ byte b i ∷ []
window_one [] i h = absurd (omega arith)
window_one (x ∷ xs) zero h = refl
window_one (x ∷ xs) (suc i) h = window_one xs i (omega arith)

decode_one : (o : ByteOrder) (x : ℕ) → decode o (x ∷ []) ≡ x
unfolding decode from_be from_le
decode_one little_endian x = omega arith
decode_one big_endian x = omega arith

-- An integer of one byte is that byte.
index-uint {ℓ} :
    {E : Type ℓ} (o : ByteOrder) (b : Bytes) (i : ℕ)
    → i < length b
    → index {E = E} b i ≡ uint o 1 b i
index-uint o b i h =
    index_lem b i h
    ∙ (ap ok (sym (rw (window_one b i h) (decode_one o (byte b i))))
        ∙ sym (uint_lem o 1 b i (omega arith)))

-- A field of one byte may be read as a byte.
module _ {ℓ} {E : Type ℓ} (o : ByteOrder) (start rest : Bytes) (base : ℕ)
    (len : length start ≡ base) where
  pub index_field :
      (before after : Layout) (v i : ℕ)
      → i ≡ base + layout_size before
      → v < 256
      → index {E = E} (start ++ (encode_layout o (before ++ ((1, v) ∷ after)) ++ rest)) i ≡ ok v
  index_field before after v i at small =
      index-uint o (start ++ (encode_layout o (before ++ ((1, v) ∷ after)) ++ rest)) i inside
      ∙ uint_field o start rest base len before after 1 v i at small
    where
      inside : i < length (start ++ (encode_layout o (before ++ ((1, v) ∷ after)) ++ rest))
      inside =
          rw
            (
              length-append start,
              length-append (encode_layout o (before ++ ((1, v) ∷ after))),
              encode_layout-append o before ((1, v) ∷ after),
              length-append (encode_layout o before),
              length-encode_layout o before,
              length-encode_layout o ((1, v) ∷ after),
            )
            (omega arith)
