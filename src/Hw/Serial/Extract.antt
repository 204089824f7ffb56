-- ===== src/Hw/Serial/Extract.antt =====
-- internal/hw/serial.go, tryExtractFrame: which bytes of the buffer become a frame.
use go_core_lab.Common.{
  ℕ, suc, ◌+◌, ◌-◌, ◌%◌, ◌^◌, ◌≡◌, ◌≢◌, refl, sym, ap, ◌∙◌, Bytes, [], ◌∷◌, ◌++◌, append_assoc,
  take, drop, replicate, All, true, Option, none, some, ◌==◌, ◌&&◌, arith, Bool-cases, Option-cases,
  inl, inr, take-append-drop, subst, subst₂, some_inj, ==_iff, ap₂,
}
use native.Mathlib.Numerals.{add-one, add-two}
use go_core_lab.Pcap.{Time}
use go_core_lab.Hw.Serial.{
  newline, sync_byte, Frame, FrameReader, index_byte, is_nil, trim_right_cr, emit, extract_in,
  extract_newline, extract_eof, extract_sync, try_extract_frame,
}

abbrev pub Lacks : ℕ → Bytes → Type 0
Lacks c = All (λ x. x ≢ c)

-- The first occurrence of a byte, with what stands before and behind it.
pub record FoundAt (b : Bytes) (c i : ℕ) : Type 0 where
  pub split : b ≡ take i b ++ (c ∷ drop (suc i) b)
  pub through : take (suc i) b ≡ take i b ++ (c ∷ [])
  pub from : drop i b ≡ c ∷ drop (suc i) b
  pub first : Lacks c (take i b)

index_byte-none : (b : Bytes) (c : ℕ) → index_byte b c ≡ none → Lacks c b
unfolding index_byte
index_byte-none [] c h = tt
index_byte-none (x ∷ xs) c h = ground (arith, index_byte-none xs c)

index_byte-Lacks : (b : Bytes) (c : ℕ) → Lacks c b → index_byte b c ≡ none
unfolding index_byte
index_byte-Lacks [] c h = refl
index_byte-Lacks (x ∷ xs) c h = ground (arith, index_byte-Lacks xs c)

found_here : (x c : ℕ) (xs : Bytes) → x ≡ c → FoundAt (x ∷ xs) c 0
found_here x c xs e = record {
  split = ap (λ t. t ∷ xs) e;
  through = ap (λ t. t ∷ []) e;
  from = ap (λ t. t ∷ xs) e;
  first = tt;
}

found_later : (x c j : ℕ) (xs : Bytes) → x ≢ c → FoundAt xs c j → FoundAt (x ∷ xs) c (suc j)
found_later x c j xs ne f = record {
  split = ap (λ t. x ∷ t) f.split;
  through = ap (λ t. x ∷ t) f.through;
  from = f.from;
  first = (ne, f.first);
}

pub index_byte-some : (b : Bytes) (c i : ℕ) → index_byte b c ≡ some i → FoundAt b c i
unfolding index_byte
index_byte-some [] c i h = cc
index_byte-some (x ∷ xs) c i h = elim (Bool-cases (x == c)) [
  | inl e ↦ subst (FoundAt (x ∷ xs) c) (some_inj (rw e at h)) (found_here x c xs ((==_iff x c).0 e))
  | inr ne ↦ elim (Option-cases (index_byte xs c)) [
    | inl gone ↦ let stop = rw (ne, gone) at h in cc
    | inr (j, at) ↦
        subst (FoundAt (x ∷ xs) c) (some_inj (rw (ne, at) at h))
          (found_later x c j xs (ground arith) (index_byte-some xs c j at))
  ]
]

is_nil→eq : (b : Bytes) → is_nil b ≡ true → b ≡ []
unfolding is_nil
is_nil→eq [] h = refl
is_nil→eq (x ∷ xs) h = cc

-- The carriage returns that are trimmed.
pub trim_right_cr-split : (b : Bytes) → (k : ℕ) × (b ≡ trim_right_cr b ++ replicate k 13)
unfolding trim_right_cr
trim_right_cr-split [] = (0, refl)
trim_right_cr-split (x ∷ xs) =
    let (k, ih) = trim_right_cr-split xs in
    elim (Bool-cases (is_nil (trim_right_cr xs) && x == 13)) [
      | inl e ↦
          let empty : trim_right_cr xs ≡ [] = is_nil→eq _ (ground arith) in
          let cr : x ≡ 13 = ground arith in (suc k, rw e (ap₂ ◌∷◌ cr (ih ∙ rw empty)))
      | inr ne ↦ (k, rw ne (ap (λ t. x ∷ t) ih))
    ]

Lacks-append : (c : ℕ) (xs ys : Bytes) → Lacks c (xs ++ ys) → Lacks c xs
Lacks-append c [] ys h = tt
Lacks-append c (x ∷ xs) ys h = (h.0, Lacks-append c xs ys h.1)

-- What an extraction in newline mode has done with the buffer.
pub record IsLine (fr : FrameReader) (f : Frame) (fr' : FrameReader) : Type 0 where
  pub cut : fr.buf ≡ f.raw ++ fr'.buf
  pub returns : ℕ
  pub line : f.raw ≡ f.payload ++ (replicate returns 13 ++ (10 ∷ []))
  pub no_newline : Lacks 10 f.payload
  pub counted : (f.seq_num ≡ (fr.seq + 1) % 2 ^ 32) × (fr'.seq ≡ f.seq_num)
  pub configured : fr'.cfg ≡ fr.cfg

module _ (now : Time) (fr : FrameReader) (i : ℕ) (at : FoundAt fr.buf 10 i) where
  abbrev line_of : Option Frame × FrameReader
  line_of = emit now fr (trim_right_cr (take i fr.buf)) (take (suc i) fr.buf) (drop (suc i) fr.buf)

  line_of-IsLine : (f : Frame) (fr' : FrameReader) → line_of ≡ (some f, fr') → IsLine fr f fr'
  line_of-IsLine f fr' h =
      let (k, trimmed) = trim_right_cr-split (take i fr.buf) in
      subst₂ (IsLine fr) (some_inj (ap (λ p. p.0) h)) (ap (λ p. p.1) h) (record {
        cut = sym (take-append-drop (suc i) fr.buf);
        returns = k;
        line =
            at.through
            ∙ (ap (λ t. t ++ (10 ∷ [])) trimmed
                ∙ append_assoc (trim_right_cr (take i fr.buf)) (replicate k 13) (10 ∷ []));
        no_newline =
            Lacks-append 10 (trim_right_cr (take i fr.buf)) (replicate k 13)
              (subst (Lacks 10) trimmed at.first);
        counted = (refl, refl);
        configured = refl;
      })

module _ (now : Time) (fr : FrameReader) where
  mode_newline : fr.cfg.mode ≡ newline → try_extract_frame now fr ≡ extract_newline now fr
  unfolding try_extract_frame
  mode_newline m = ap (λ d. extract_in d now fr) m

  mode_sync : fr.cfg.mode ≡ sync_byte → try_extract_frame now fr ≡ extract_sync now fr
  unfolding try_extract_frame
  mode_sync m = ap (λ d. extract_in d now fr) m

-- In newline mode an extracted frame is the first line of the buffer: the buffer is the frame's raw
-- bytes and what stays behind, the raw bytes are the payload, some carriage returns and a newline,
-- and no newline is in the payload. Without a newline in the buffer nothing changes.
pub extract_newline_lem :
    (now : Time) (fr : FrameReader)
    → fr.cfg.mode ≡ newline
    → ((f : Frame) (fr' : FrameReader) → try_extract_frame now fr ≡ (some f, fr') → IsLine fr f fr')
      × ((fr' : FrameReader)
          → try_extract_frame now fr ≡ (none, fr')
          → (fr' ≡ fr) × Lacks 10 fr.buf)
unfolding extract_newline
extract_newline_lem now fr m =
    rw (mode_newline now fr m) (elim (Option-cases (index_byte fr.buf 10)) [
      | inl gone ↦
          rw (gone, extract_newline)
            (λ f fr' h. cc, λ fr' h. (sym (ap (λ p. p.1) h), index_byte-none fr.buf 10 gone))
      | inr (i, at) ↦
          rw (at, extract_newline, add-one i)
            (line_of-IsLine now fr i (index_byte-some fr.buf 10 i at), λ fr' h. cc)
    ])

-- What an extraction in sync mode has done with the buffer.
pub record IsSynced (fr : FrameReader) (f : Frame) (fr' : FrameReader) : Type 0 where
  pub garbage : Bytes
  pub cut : fr.buf ≡ garbage ++ (f.raw ++ fr'.buf)
  pub no_start : Lacks fr.cfg.sof garbage
  pub enclosed : f.raw ≡ fr.cfg.sof ∷ (f.payload ++ (fr.cfg.eof ∷ []))
  pub no_end : Lacks fr.cfg.eof f.payload
  pub counted : (f.seq_num ≡ (fr.seq + 1) % 2 ^ 32) × (fr'.seq ≡ f.seq_num)
  pub configured : fr'.cfg ≡ fr.cfg

-- The bytes of a frame whose end byte was found `j` bytes behind the start byte.
module _ (sof eof j : ℕ) (b t : Bytes) (start : b ≡ sof ∷ t) (at : FoundAt (drop 1 b) eof j) where
  at_tail : FoundAt t eof j
  at_tail = subst (λ l. FoundAt (drop 1 l) eof j) start at

  tail_eq : drop 1 b ≡ t
  tail_eq = ap (drop 1) start

  raw_lem : take (j + 2) b ≡ sof ∷ (take j (drop 1 b) ++ (eof ∷ []))
  raw_lem = rw (add-two j, tail_eq, start) (ap (λ l. sof ∷ l) at_tail.through)

module _ (now : Time) (fr : FrameReader) (i j : ℕ) (at : FoundAt fr.buf fr.cfg.sof i)
    (end : FoundAt (drop 1 (drop i fr.buf)) fr.cfg.eof j) where
  abbrev rest_of : Bytes
  rest_of = drop i fr.buf

  sync-IsSynced :
      (f : Frame) (fr' : FrameReader)
      → emit now
          (record fr { buf = rest_of })
          (take (j + 2 - 1 - 1) (drop 1 rest_of))
          (take (j + 2) rest_of)
          (drop (j + 2) rest_of)
        ≡ (some f, fr')
      → IsSynced fr f fr'
  sync-IsSynced f fr' h =
      subst₂ (IsSynced fr) (some_inj (ap (λ p. p.0) h)) (ap (λ p. p.1) h) (record {
        garbage = take i fr.buf;
        cut =
            sym (take-append-drop i fr.buf)
            ∙ ap (λ l. take i fr.buf ++ l) (sym (take-append-drop (j + 2) rest_of));
        no_start = at.first;
        enclosed =
            rw less (raw_lem fr.cfg.sof fr.cfg.eof j rest_of (drop (suc i) fr.buf) at.from end);
        no_end = rw less end.first;
        counted = (refl, refl);
        configured = refl;
      })
    where
      less : j + 2 - 1 - 1 ≡ j
      less = omega arith

-- In sync mode an extracted frame is the first one that the buffer holds: in front of it stands
-- garbage without a start byte, its raw bytes are the start byte, the payload and the end byte, and
-- no end byte is in the payload. Without a start byte in the buffer the buffer is emptied.
pub extract_sync_lem :
    (now : Time) (fr : FrameReader)
    → fr.cfg.mode ≡ sync_byte
    → ((f : Frame) (fr' : FrameReader)
        → try_extract_frame now fr ≡ (some f, fr')
        → IsSynced fr f fr')
      × (Lacks fr.cfg.sof fr.buf → try_extract_frame now fr ≡ (none, record fr { buf = [] }))
unfolding extract_sync extract_eof
extract_sync_lem now fr m =
    rw (mode_sync now fr m) (found, λ h. rw (index_byte-Lacks fr.buf fr.cfg.sof h, extract_sync))
  where
    found :
        (f : Frame) (fr' : FrameReader) → extract_sync now fr ≡ (some f, fr') → IsSynced fr f fr'
    found f fr' = elim (Option-cases (index_byte fr.buf fr.cfg.sof)) [
      | inl gone ↦ rw (gone, extract_sync) (λ h. cc)
      | inr (i, at) ↦ elim (Option-cases (index_byte (drop 1 (drop i fr.buf)) fr.cfg.eof)) [
        | inl open_ended ↦ rw (at, extract_sync, open_ended, extract_eof) (λ h. cc)
        | inr (j, end) ↦
            rw (at, extract_sync, end, extract_eof)
              (sync-IsSynced now fr i j (index_byte-some _ _ i at) (index_byte-some _ _ j end) f
                fr')
      ]
    ]
