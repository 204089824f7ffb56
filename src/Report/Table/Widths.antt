-- ===== src/Report/Table/Widths.antt =====
-- pkg/report/table.go, Table.Render: the loops that widen the columns.
use go_core_lab.Common.{
  ℕ, zero, suc, ◌+◌, ◌≤◌, ◌<◌, ◌≡◌, refl, subst, ◌∙◌, Bool-cases, inl, inr, Bytes, List, [], ◌∷◌,
  length, get_or, set, length-set, get_or-set_self, get_or-set_ne, replicate, length-replicate, All,
  if◌then◌else◌, ltb, ◌==◌, ==_iff, arith,
}
use native.Mathlib.Nat.{add-zero}
use go_core_lab.Report.Table.{widen}

-- Every cell of a row fits its column.
abbrev pub FitsRow : List ℕ → List Bytes → Type 0
FitsRow ws row = (j : ℕ) → length (get_or row j []) ≤ get_or ws j 0

abbrev pub Below : List ℕ → List ℕ → Type 0
Below ws us = (j : ℕ) → get_or ws j 0 ≤ get_or us j 0

abbrev bump : List ℕ → ℕ → ℕ → List ℕ
bump ws i n = if ltb (get_or ws i 0) n then set ws i n else ws

get_or_outside : (ws : List ℕ) (j : ℕ) → length ws ≤ j → get_or ws j 0 ≡ 0
get_or_outside [] j h = refl
get_or_outside (x ∷ xs) zero h = absurd (omega arith)
get_or_outside (x ∷ xs) (suc j) h = get_or_outside xs j (omega arith)

-- One column grows to a width that it has not.
module _ (ws : List ℕ) (i n : ℕ) (inside : i < length ws) where
  bump_here : n ≤ get_or (bump ws i n) i 0
  bump_here = elim (Bool-cases (ltb (get_or ws i 0) n)) [
    | inl e ↦ rw e (omega (arith, get_or-set_self ws i n 0 inside))
    | inr e ↦ rw e (ground arith)
  ]

  bump_eq : (j : ℕ) → (i ≡ j → ⊥) → get_or (bump ws i n) j 0 ≡ get_or ws j 0
  bump_eq j ne = elim (Bool-cases (ltb (get_or ws i 0) n)) [
    | inl e ↦ rw e (get_or-set_ne ws i j n 0 ne)
    | inr e ↦ rw e refl
  ]

  bump_self : get_or (bump ws i n) i 0 ≡ (if ltb (get_or ws i 0) n then n else get_or ws i 0)
  bump_self = elim (Bool-cases (ltb (get_or ws i 0) n)) [
    | inl e ↦ rw e (get_or-set_self ws i n 0 inside)
    | inr e ↦ rw e refl
  ]

  length-bump : length (bump ws i n) ≡ length ws
  length-bump = elim (Bool-cases (ltb (get_or ws i 0) n)) [
    | inl e ↦ rw e (length-set ws i n)
    | inr e ↦ rw e refl
  ]

  at_or_off : (j : ℕ) (P : ℕ → Type 0) → P i → ((i ≡ j → ⊥) → P j) → P j
  at_or_off j P here off = elim (Bool-cases (i == j)) [
    | inl e ↦ subst P ((==_iff i j).0 e) here
    | inr e ↦ off (λ h. ground arith)
  ]

  bump-Below : Below ws (bump ws i n)
  bump-Below j =
      at_or_off j (λ k. get_or ws k 0 ≤ get_or (bump ws i n) k 0) (ground (arith, bump_self))
        (λ ne. omega (arith, bump_eq j ne))

  bump_least : (us : List ℕ) → Below ws us → n ≤ get_or us i 0 → Below (bump ws i n) us
  bump_least us below small j =
      at_or_off j (λ k. get_or (bump ws i n) k 0 ≤ get_or us k 0)
        (ground (arith, bump_self, below i)) (λ ne. omega (arith, bump_eq j ne, below j))

pub zero_add : (n : ℕ) → 0 + n ≡ n
zero_add n = omega arith

-- The loop over the cells of a row.
pub length-widen :
    (ws : List ℕ) (i : ℕ) (cells : List Bytes)
    → i + length cells ≤ length ws
    → length (widen ws i cells) ≡ length ws
unfolding widen
length-widen ws i [] h = refl
length-widen ws i (c ∷ cs) h =
    let grown = length-bump ws i (length c) (omega arith) in
    length-widen (bump ws i (length c)) (i + 1) cs (omega (arith, grown)) ∙ grown

pub widen-Below :
    (ws : List ℕ) (i : ℕ) (cells : List Bytes)
    → i + length cells ≤ length ws
    → Below ws (widen ws i cells)
unfolding widen
widen-Below ws i [] h j = omega arith
widen-Below ws i (c ∷ cs) h j =
    let grown = length-bump ws i (length c) (omega arith) in
    omega (
      arith,
      bump-Below ws i (length c) (omega arith) j,
      widen-Below (bump ws i (length c)) (i + 1) cs (omega (arith, grown)) j,
    )

widen_fits :
    (ws : List ℕ) (i : ℕ) (cells : List Bytes)
    → i + length cells ≤ length ws
    → (k : ℕ) → length (get_or cells k []) ≤ get_or (widen ws i cells) (i + k) 0
unfolding widen
widen_fits ws i [] h k = omega arith
widen_fits ws i (c ∷ cs) h zero =
    let grown = length-bump ws i (length c) (omega arith) in
    let later = widen-Below (bump ws i (length c)) (i + 1) cs (omega (arith, grown)) i in
    rw (add-zero i) (omega (arith, bump_here ws i (length c) (omega arith), later))
widen_fits ws i (c ∷ cs) h (suc k) =
    let grown = length-bump ws i (length c) (omega arith) in
    let shift : i + 1 + k ≡ i + suc k = omega arith in
    rw (← shift) (widen_fits (bump ws i (length c)) (i + 1) cs (omega (arith, grown)) k)

pub widen_least :
    (ws us : List ℕ) (i : ℕ) (cells : List Bytes)
    → i + length cells ≤ length ws
    → Below ws us
    → ((k : ℕ) → length (get_or cells k []) ≤ get_or us (i + k) 0)
    → Below (widen ws i cells) us
unfolding widen
widen_least ws us i [] h below fits = below
widen_least ws us i (c ∷ cs) h below fits =
    let grown = length-bump ws i (length c) (omega arith) in
    let here : length c ≤ get_or us i 0 = rw (add-zero i) at (fits 0) in
    widen_least (bump ws i (length c)) us (i + 1) cs (omega (arith, grown))
      (bump_least ws i (length c) (omega arith) us below here)
      (λ k. let shift : i + 1 + k ≡ i + suc k = omega arith in rw shift (fits (suc k)))

abbrev pub no_widths : ℕ → List ℕ
no_widths n = replicate n 0

pub get_or-no_widths : (n j : ℕ) → get_or (no_widths n) j 0 ≡ 0
get_or-no_widths zero j = refl
get_or-no_widths (suc n) zero = refl
get_or-no_widths (suc n) (suc j) = get_or-no_widths n j

pub length-no_widths : (n : ℕ) → length (no_widths n) ≡ n
length-no_widths n = length-replicate n 0

-- The loop over the rows.
abbrev pub Short : ℕ → List (List Bytes) → Type 0
Short n rows = All (λ row. length row ≤ n) rows

pub widen_fits_first :
    (ws : List ℕ) (row : List Bytes) → length row ≤ length ws → FitsRow (widen ws 0 row) row
widen_fits_first ws row h j = rw (zero_add j) at (widen_fits ws 0 row (omega (arith, h)) j)
