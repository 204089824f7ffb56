-- ===== src/Elf/Sections/Strings.antt =====
-- internal/binary/elf.go, extractNullString: the strings of a string table.
use go_core_lab.Common.{
  ℕ, ◌≡◌, ◌≢◌, inl, inr, refl, sym, subst, ◌↔◌, ◌∙◌, Bytes, [], ◌∷◌, ◌++◌, length, take, drop, All,
  drop_past, take-nil, take-append-drop, take-append, leb, leb→le, ◌==◌, false, ==_iff, Bool-cases,
  arith,
}
use go_core_lab.Elf.Sections.{null_distance, extract_null_string}

abbrev pub NoNull : Bytes → Type 0
NoNull = All (λ b. b ≢ 0)

-- Nothing, or a NUL first.
unfoldable pub Ends : Bytes → Type 0
Ends [] = Unit
Ends (x ∷ xs) = x ≡ 0

-- The string at the beginning of some bytes: it has no NUL, and stops at one or at the end.
pub record StartsWith (b s : Bytes) : Type 0 where
  pub no_null : NoNull s
  pub rest : Bytes
  pub split : b ≡ s ++ rest
  pub ends : Ends rest

-- The loop goes as far as that string.
null_distance-at : (s rest : Bytes) → NoNull s → Ends rest → null_distance (s ++ rest) ≡ length s
unfolding null_distance Ends
null_distance-at [] [] h e = refl
null_distance-at [] (x ∷ xs) h e = rw ((==_iff x 0).1 e)
null_distance-at (x ∷ xs) rest (x_ne, h) ends = elim (Bool-cases (x == 0)) [
  | inl e ↦ absurd (x_ne ((==_iff x 0).0 e))
  | inr e ↦ rw (e, null_distance-at xs rest h ends)
]

nonzero : (x : ℕ) → (x == 0) ≡ false → x ≢ 0
nonzero x e z = ground arith

take-null_distance : (b : Bytes) → NoNull (take (null_distance b) b)
unfolding null_distance
take-null_distance [] = tt
take-null_distance (x ∷ xs) = elim (Bool-cases (x == 0)) [
  | inl e ↦ rw e tt
  | inr e ↦ rw e (nonzero x e, take-null_distance xs)
]

drop-null_distance : (b : Bytes) → Ends (drop (null_distance b) b)
unfolding null_distance Ends
drop-null_distance [] = tt
drop-null_distance (x ∷ xs) = elim (Bool-cases (x == 0)) [
  | inl e ↦ rw e ((==_iff x 0).0 e)
  | inr e ↦ rw e (drop-null_distance xs)
]

extract_null_string_lem :
    (b : Bytes) (offset : ℕ)
    → extract_null_string b offset ≡ take (null_distance (drop offset b)) (drop offset b)
unfolding extract_null_string
extract_null_string_lem b offset = elim (Bool-cases (leb (length b) offset)) [
  | inr e ↦ rw e
  | inl e ↦ rw (e, drop_past offset b (leb→le (length b) offset e)) (sym (take-nil _))
]

-- A string is what extractNullString finds at an offset exactly if it stands there, has no NUL, and
-- is followed by a NUL or by the end of the table; behind the end that is the empty string.
pub extract_null_string-finds :
    (b : Bytes) (offset : ℕ) (s : Bytes)
    → (extract_null_string b offset ≡ s) ↔ StartsWith (drop offset b) s
extract_null_string-finds b offset s =
    let here = drop offset b in
    (
      λ e. subst (StartsWith here) (sym (extract_null_string_lem b offset) ∙ e) record {
        no_null = take-null_distance here;
        rest = drop (null_distance here) here;
        split = sym (take-append-drop (null_distance here) here);
        ends = drop-null_distance here;
      },
      λ w.
          extract_null_string_lem b offset
          ∙ rw (w.split, null_distance-at s w.rest w.no_null w.ends, take-append s w.rest),
    )
