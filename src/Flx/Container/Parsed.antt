-- ===== src/Flx/Container/Parsed.antt =====
-- internal/binary/flx/container.go, ParseReader: what a file that was parsed is like.
use Prim.Native.String.{String}
use go_core_lab.Common.{
  wrap-eq-ok, if-eq-ok, ok_inj, ok_fst, length-read_full, ◌≡◌, refl, ap, ◌∙◌, subst, ◌&&◌, Bytes,
  List, [], length, Option, some, ok, err, panic, wrap, >>=-eq-ok, Reader, read_full, seek,
  if◌then◌else◌, ltb, ◌==◌, ==_iff, Bool-cases, inl, inr,
}
use go_core_lab.Flx.Pool.{ConstantPool, decode_pool}
use go_core_lab.Flx.Disasm.{Instruction, Disassembly, disassemble}
use go_core_lab.Flx.Disasm.Cover.{raw_of, LaidFrom, CoversFrom, disassemble-CoversFrom}
use go_core_lab.Flx.Container.{
  Header, magic_number, header_of, File, read_header, seek_metadata, seek_pool, bad_pool,
  seek_bytecode, read_bytecode, parse_metadata, present, with_metadata, with_pool,
  with_instructions, with_bytecode, new_file, parse_reader,
}

-- A file whose bytecode has the size that its header says, none if the header has no bytecode, and
-- whose instructions are that bytecode.
pub record IsParsed (path : String) (f : File) : Type 0 where
  pub magic : f.header.magic ≡ magic_number
  pub here : f.path ≡ path
  pub size : length f.bytecode ≡ (
      if ltb 0 f.header.bytecode_offset && ltb 0 f.header.bytecode_size
      then f.header.bytecode_size
      else 0)
  pub cover : raw_of f.instructions ≡ f.bytecode
  pub laid : LaidFrom 0 f.instructions

-- A file before its bytecode is read.
record IsBare (hdr : Header) (path : String) (f : File) : Type 0 where
  header : f.header ≡ hdr
  here : f.path ≡ path
  no_bytecode : f.bytecode ≡ []
  no_instructions : f.instructions ≡ []

module _ {hdr : Header} {path : String} {f g : File} (r r' : Reader) (b : IsBare hdr path f) where
  metadata-IsBare : with_metadata f r ≡ ok (g, r') → IsBare hdr path g
  unfolding with_metadata
  metadata-IsBare h =
      elim (if-eq-ok (present f.header.metadata_offset f.header.metadata_count) _ _ h) [
        | inr (absent, e) ↦ subst (IsBare hdr path) (ok_fst e) b
        | inl (there, e) ↦
            let (r₁, e₁, e₂) =
              >>=-eq-ok (wrap seek_metadata (seek f.header.metadata_offset r)) _ e in
            let ((table, r₂), e₃, e₄) =
              >>=-eq-ok (parse_metadata f.header.metadata_count 0 [] r₁) _ e₂ in
            subst (IsBare hdr path) (ok_fst e₄) (record {
              header = b.header;
              here = b.here;
              no_bytecode = b.no_bytecode;
              no_instructions = b.no_instructions;
            })
      ]

  pool-IsBare : with_pool f r ≡ ok (g, r') → IsBare hdr path g
  unfolding with_pool
  pool-IsBare h =
      elim (if-eq-ok (present f.header.constant_pool_offset f.header.constant_pool_count) _ _ h) [
        | inr (absent, e) ↦ subst (IsBare hdr path) (ok_fst e) b
        | inl (there, e) ↦
            let (r₁, e₁, e₂) =
              >>=-eq-ok (wrap seek_pool (seek f.header.constant_pool_offset r)) _ e in
            let ((pool, r₂), e₃, e₄) =
              >>=-eq-ok (wrap bad_pool (decode_pool r₁ f.header.constant_pool_count)) _ e₂ in
            subst (IsBare hdr path) (ok_fst e₄) (record {
              header = b.header;
              here = b.here;
              no_bytecode = b.no_bytecode;
              no_instructions = b.no_instructions;
            })
      ]

-- The instructions that are kept are those of a disassembly that ended well.
with_instructions-eq-ok :
    (f : File) (d : Disassembly) {g : File}
    → with_instructions f d ≡ ok g
    → (is : List Instruction) × (d ≡ ok is) × (record f { instructions = is } ≡ g)
unfolding with_instructions
with_instructions-eq-ok f (ok is) h = (is, refl, ok_inj h)
with_instructions-eq-ok f (err (is, e)) h = absurd cc
with_instructions-eq-ok f panic h = absurd cc

covered :
    (b : Bytes) (pool : Option ConstantPool) (is : List Instruction)
    → disassemble b pool ≡ ok is
    → (raw_of is ≡ b) × LaidFrom 0 is
unfolding CoversFrom
covered b pool is e = subst (CoversFrom b 0) e (disassemble-CoversFrom b pool)

module _ {path : String} {f g : File} (r : Reader) (b : IsBare f.header path f)
    (m : f.header.magic ≡ magic_number) where
  bytecode-IsParsed : with_bytecode f r ≡ ok g → IsParsed path g
  unfolding with_bytecode
  bytecode-IsParsed h =
      elim (if-eq-ok (present f.header.bytecode_offset f.header.bytecode_size) _ _ h) [
        | inr (absent, e) ↦ subst (IsParsed path) (ok_inj e) (record {
          magic = m;
          here = b.here;
          size = rw (absent, b.no_bytecode);
          cover = rw (b.no_instructions, b.no_bytecode) (unfold raw_of in refl);
          laid = rw b.no_instructions (unfold LaidFrom in tt);
        })
        | inl (there, e) ↦
            let (r₁, e₁, e₂) =
              >>=-eq-ok (wrap seek_bytecode (seek f.header.bytecode_offset r)) _ e in
            let ((bytecode, r₂), e₃, e₄) =
              >>=-eq-ok (wrap read_bytecode (read_full f.header.bytecode_size r₁)) _ e₂ in
            let (is, e₅, e₆) =
              with_instructions-eq-ok (record f { bytecode = bytecode })
                (disassemble bytecode (some f.pool)) e₄ in
            let (cover, laid) = covered bytecode (some f.pool) is e₅ in
            subst (IsParsed path) e₆ (record {
              magic = m;
              here = b.here;
              size = rw there (
                  length-read_full f.header.bytecode_size r₁
                    (wrap-eq-ok read_bytecode (read_full f.header.bytecode_size r₁) e₃));
              cover = cover;
              laid = laid;
            })
      ]

header_read : (hdr : Header) (path : String) → IsBare hdr path (new_file hdr path)
unfolding new_file
header_read hdr path = record {
  header = refl;
  here = refl;
  no_bytecode = refl;
  no_instructions = refl;
}

-- Of a file that ParseReader accepts the magic number is right, the bytecode has the size in the
-- header, or is empty if the header has no bytecode, and the instructions cover the bytecode one
-- behind the other.
pub parse_reader-IsParsed :
    (r : Reader) (path : String) (f : File) → parse_reader r path ≡ ok f → IsParsed path f
unfolding parse_reader
parse_reader-IsParsed r path f h =
    let ((s, r₁), e₁, e₂) = >>=-eq-ok (wrap read_header (read_full 36 r)) _ h in
    let hdr = header_of s in
    let bare = header_read hdr path in
    elim (Bool-cases (hdr.magic == magic_number)) [
      | inr wrong ↦ absurd (let stop = rw wrong at e₂ in cc)
      | inl right ↦
          let (u, e₃, e₄) = >>=-eq-ok (with_metadata (new_file hdr path) r₁) _ (rw right at e₂) in
          let b₁ = metadata-IsBare r₁ u.1 bare e₃ in
          let (w, e₅, e₆) = >>=-eq-ok (with_pool u.0 u.1) _ e₄ in
          let b₂ = pool-IsBare u.1 w.1 b₁ e₅ in
          bytecode-IsParsed w.1
            (record {
              header = refl;
              here = b₂.here;
              no_bytecode = b₂.no_bytecode;
              no_instructions = b₂.no_instructions;
            })
            (ap (λ (k : Header). k.magic) b₂.header ∙ (==_iff hdr.magic magic_number).0 right) e₆
    ]
