-- ===== src/Common/Safety.antt =====
-- Calls that do not panic.
use Prim.Native.Nat.{ℕ, zero, suc, ◌+◌, ◌-◌, ◌^◌, ◌≤◌, ◌<◌}
use mathlib.Core.Path.{◌≡◌, refl, sym, ap, ◌∙◌, subst}
use mathlib.Core.Logic.{◌⊎◌, inl, inr}
use mathlib.Core.Bool.{Bool, true, false, ◌&&◌}
use native.Mathlib.Omega.{arith}
use go_core_lab.Common.Tests.{leb, ◌==◌, ==_iff, if◌then◌else◌}
use go_core_lab.Common.Lists.{length, length-take}
use go_core_lab.Common.Outcome.{Result, ok, err, panic, ◌>>=◌, wrap, guard}
use go_core_lab.Common.Slices.{
  Bytes, ByteOrder, window, slice, index, index_lem, byte, uint, uint_lem,
}
use go_core_lab.Common.Streams.{Reader, remaining, read_full, seek}
use go_core_lab.Common.Fields.{table}

unfoldable pub IsSafe {ℓ κ} : {E : Type ℓ} {A : Type κ} → Result E A → Type 0
IsSafe panic = ⊥
IsSafe (err e) = Unit
IsSafe (ok a) = Unit

pub IsSafe-ne-panic {ℓ κ} : {E : Type ℓ} {A : Type κ} {m : Result E A} → IsSafe m → m ≡ panic → ⊥
unfolding IsSafe
IsSafe-ne-panic s e = subst IsSafe e s

pub >>=-IsSafe {ℓ κ ι} :
    {E : Type ℓ} {A : Type κ} {B : Type ι} (m : Result E A) (f : A → Result E B)
    → IsSafe m
    → ((a : A) → m ≡ ok a → IsSafe (f a))
    → IsSafe (m >>= f)
unfolding IsSafe
>>=-IsSafe panic f s t = s
>>=-IsSafe (err e) f s t = tt
>>=-IsSafe (ok a) f s t = t a refl

pub wrap-IsSafe : {E F A : Type 0} (g : E → F) (m : Result E A) → IsSafe m → IsSafe (wrap g m)
unfolding IsSafe
wrap-IsSafe g panic s = s
wrap-IsSafe g (err e) s = tt
wrap-IsSafe g (ok a) s = tt

pub if-IsSafe :
    {E A : Type 0} (b : Bool) (m n : Result E A)
    → (b ≡ true → IsSafe m)
    → (b ≡ false → IsSafe n)
    → IsSafe (if b then m else n)
if-IsSafe true m n s t = s refl
if-IsSafe false m n s t = t refl

-- What a call in sequence that succeeded went through.
pub wrap-eq-ok : {E F A : Type 0} (g : E → F) (m : Result E A) {a : A} → wrap g m ≡ ok a → m ≡ ok a
wrap-eq-ok g (ok a) h = cc
wrap-eq-ok g (err e) h = cc
wrap-eq-ok g panic h = cc

pub if-eq-ok :
    {E A : Type 0} (b : Bool) (m n : Result E A) {a : A}
    → (if b then m else n) ≡ ok a
    → ((b ≡ true) × (m ≡ ok a)) ⊎ ((b ≡ false) × (n ≡ ok a))
if-eq-ok true m n h = inl (refl, h)
if-eq-ok false m n h = inr (refl, h)

pub ok_inj : {E A : Type 0} {a b : A} → ◌≡◌ {A = Result E A} (ok a) (ok b) → a ≡ b
ok_inj h = cc

pub ok_fst :
    {E A B : Type 0} {a a' : A} {b b' : B}
    → ◌≡◌ {A = Result E (A × B)} (ok (a, b)) (ok (a', b'))
    → a ≡ a'
ok_fst h = ap (λ p. p.0) (ok_inj h)

pub guard-eq-ok : {E : Type 0} (b : Bool) (e : E) {u : Unit {0}} → guard b e ≡ ok u → b ≡ true
guard-eq-ok true e h = refl
guard-eq-ok false e h = cc

pub slice-eq-ok :
    {E : Type 0} (b : Bytes) (lo hi : ℕ) {s : Bytes}
    → slice {E = E} b lo hi ≡ ok s
    → (lo ≤ hi) × (hi ≤ length b) × (s ≡ window b lo (hi - lo))
unfolding slice
slice-eq-ok {E} b lo hi h = elim (if-eq-ok {E = E} (leb lo hi && leb hi (length b)) _ _ h) [
  | inl (inside, e) ↦ (ground arith, ground arith, sym (ok_inj e))
  | inr (outside, e) ↦ absurd cc
]

-- Reading and seeking return, and a buffer that was filled has its length.
pub length-read_full :
    (n : ℕ) (r : Reader) {s : Bytes} {r' : Reader} → read_full n r ≡ ok (s, r') → length s ≡ n
unfolding read_full
length-read_full n r {s} {r'} h = elim (if-eq-ok (n == 0) _ _ h) [
  | inl (zero_bytes, e) ↦ ap length (sym (ok_fst e)) ∙ sym ((==_iff n 0).0 zero_bytes)
  | inr (some_bytes, e) ↦ elim (if-eq-ok (length (remaining r) == 0) _ _ e) [
    | inl (at_end, e') ↦ absurd cc
    | inr (more, e') ↦ elim (if-eq-ok (leb n (length (remaining r))) _ _ e') [
      | inl (enough, e'') ↦
          ap length (sym (ok_fst e'')) ∙ ground (arith, length-take n (remaining r))
      | inr (short, e'') ↦ absurd cc
    ]
  ]
]

pub read_full-IsSafe : (n : ℕ) (r : Reader) → IsSafe (read_full n r)
unfolding read_full IsSafe
read_full-IsSafe n r =
    if-IsSafe (n == 0) _ _ (λ e. tt)
      (λ e.
        if-IsSafe (length (remaining r) == 0) _ _ (λ e. tt)
          (λ e. if-IsSafe (leb n (length (remaining r))) _ _ (λ e. tt) (λ e. tt)))

pub seek-IsSafe : (offset : ℕ) (r : Reader) → IsSafe (seek offset r)
unfolding seek IsSafe
seek-IsSafe offset r = if-IsSafe (leb (2 ^ 63) offset) _ _ (λ e. tt) (λ e. tt)

-- An integer or a byte within the bounds of a buffer is read.
pub uint-IsSafe :
    {E A : Type 0} (o : ByteOrder) (n : ℕ) (b : Bytes) (i : ℕ) (f : ℕ → Result E A)
    → i + n ≤ length b
    → ((v : ℕ) → IsSafe (f v))
    → IsSafe (uint o n b i >>= f)
uint-IsSafe o n b i f h s = rw (uint_lem o n b i h) (s _)

pub index-IsSafe :
    {E A : Type 0} (b : Bytes) (i : ℕ) (f : ℕ → Result E A)
    → i < length b
    → ((v : ℕ) → IsSafe (f v))
    → IsSafe (index b i >>= f)
index-IsSafe b i f h s = rw (index_lem b i h) (s (byte b i))

pub table-IsSafe :
    {E A : Type 0} (entry : ℕ → Result E A) (n i : ℕ)
    → ((j : ℕ) → j < i + n → IsSafe (entry j))
    → IsSafe (table entry n i)
unfolding table IsSafe
table-IsSafe entry zero i s = tt
table-IsSafe entry (suc n) i s = >>=-IsSafe (entry i) _ (s i (omega arith)) (λ x e.
    >>=-IsSafe (table entry n (i + 1)) _ (table-IsSafe entry n (i + 1) (λ j h. s j (omega arith)))
      (λ xs e'. tt))
