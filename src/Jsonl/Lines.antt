-- ===== src/Jsonl/Lines.antt =====
-- internal/pipeline/jsonl_sink.go: the lines of the output.
use go_core_lab.Common.{
  ◌≡◌, ◌≢◌, subst, refl, sym, ap, ◌∙◌, Bool-cases, inl, inr, Bytes, List, [], ◌∷◌, ◌++◌,
  append_assoc, append-nil, All, Result, ok, >>=-eq-ok, wrap, wrap-eq-ok, ok_inj, if◌then◌else◌,
  ◌==◌, ==_iff,
}
use go_core_lab.Pipeline.Types.{PipelineEvent}
use go_core_lab.Jsonl.{
  JsonEventRecord, marshal_failed, write_failed, write_record, on_jsonl_event, on_jsonl_events,
}

abbrev pub OneLine : Bytes → Type 0
OneLine = All (λ b. b ≢ 10)

-- The lines of a text that end in a newline, with `line` read of the first.
unfoldable pub lines_from : Bytes → Bytes → List Bytes
lines_from line [] = []
lines_from line (x ∷ xs) =
    if x == 10 then line ∷ lines_from [] xs else lines_from (line ++ (x ∷ [])) xs

abbrev pub lines : Bytes → List Bytes
lines b = lines_from [] b

-- A line of the output is taken off it.
lines_from-append :
    (l rest line : Bytes)
    → OneLine l
    → lines_from line (l ++ (10 ∷ rest)) ≡ (line ++ l) ∷ lines rest
unfolding lines_from
lines_from-append [] rest line h = ap (λ k. k ∷ lines_from [] rest) (sym (append-nil line))
lines_from-append (x ∷ l) rest line (ne, h) = elim (Bool-cases (x == 10)) [
  | inl e ↦ absurd (ne ((==_iff x 10).0 e))
  | inr e ↦
      rw (e, lines_from-append l rest (line ++ (x ∷ [])) h)
        (ap (λ k. k ∷ lines_from [] rest) (append_assoc line (x ∷ []) l))
]

unfoldable pub joined : List Bytes → Bytes
joined [] = []
joined (l ∷ ls) = l ++ (10 ∷ joined ls)

lines-joined : (ls : List Bytes) → All OneLine ls → lines (joined ls) ≡ ls
unfolding joined lines_from
lines-joined [] h = refl
lines-joined (l ∷ ls) (one, h) =
    lines_from-append l (joined ls) [] one ∙ ap (λ k. l ∷ k) (lines-joined ls h)

-- What json.Marshal makes of each record, in order.
unfoldable pub Marshalled :
    {E : Type 0} → (JsonEventRecord → Result E Bytes) → List JsonEventRecord → List Bytes → Type 0
Marshalled marshal [] [] = Unit
Marshalled marshal [] (l ∷ ls) = ⊥
Marshalled marshal (rec ∷ recs) [] = ⊥
Marshalled marshal (rec ∷ recs) (l ∷ ls) = (marshal rec ≡ ok l) × Marshalled marshal recs ls

abbrev pub records : (PipelineEvent → JsonEventRecord) → List PipelineEvent → List JsonEventRecord
records to_record [] = []
records to_record (event ∷ events) = to_record event ∷ records to_record events

module _ {W E : Type 0} (marshal : JsonEventRecord → Result E Bytes)
    (write : W → Bytes → Result E W) (content : W → Bytes)
    (one_line : (rec : JsonEventRecord) (l : Bytes) → marshal rec ≡ ok l → OneLine l)
    (appends : (w w' : W) (b : Bytes) → write w b ≡ ok w' → content w' ≡ content w ++ b) where
  write_record-appends :
      (rec : JsonEventRecord) (w w' : W)
      → write_record marshal write rec w ≡ ok w'
      → (l : Bytes) × (marshal rec ≡ ok l) × (content w' ≡ content w ++ (l ++ (10 ∷ [])))
  unfolding write_record
  write_record-appends rec w w' h =
      let (l, e, h₁) = >>=-eq-ok (wrap marshal_failed (marshal rec)) _ h in
      let (w₁, e₁, h₂) = >>=-eq-ok (wrap write_failed (write w l)) _ h₁ in
      let first = appends w w₁ l (wrap-eq-ok write_failed (write w l) e₁) in
      let second = appends w₁ w' (10 ∷ []) (wrap-eq-ok write_failed (write w₁ (10 ∷ [])) h₂) in
      (
        l,
        wrap-eq-ok marshal_failed (marshal rec) e,
        second ∙ (ap (λ c. c ++ (10 ∷ [])) first ∙ append_assoc (content w) l (10 ∷ [])),
      )

  on_jsonl_events-appends :
      (to_record : PipelineEvent → JsonEventRecord) (events : List PipelineEvent) (w w' : W)
      → on_jsonl_events marshal write to_record events w ≡ ok w'
      → (ls : List Bytes) × Marshalled marshal (records to_record events) ls
        × All OneLine ls
        × (content w' ≡ content w ++ joined ls)
  unfolding on_jsonl_events on_jsonl_event Marshalled joined
  on_jsonl_events-appends to_record [] w w' h =
      ([], tt, tt, ap content (sym (ok_inj h)) ∙ sym (append-nil (content w)))
  on_jsonl_events-appends to_record (event ∷ events) w w' h =
      let (w₁, e, h₁) = >>=-eq-ok (write_record marshal write (to_record event) w) _ h in
      let (l, m, here) = write_record-appends (to_record event) w w₁ e in
      let (ls, ms, ones, later) = on_jsonl_events-appends to_record events w₁ w' h₁ in
      (
        l ∷ ls,
        (m, ms),
        (one_line (to_record event) l m, ones),
        later ∙ (ap (λ c. c ++ joined ls) here ∙ simp append_assoc),
      )

  -- If json.Marshal writes no newline and the writer appends, then a JsonlSink that began with an empty
  -- output, and none of whose calls failed, has one line for each event, in the order of the events: the
  -- JSON of the event's record.
  pub on_jsonl_events-lines :
      (to_record : PipelineEvent → JsonEventRecord) (events : List PipelineEvent) (w w' : W)
      → content w ≡ []
      → on_jsonl_events marshal write to_record events w ≡ ok w'
      → Marshalled marshal (records to_record events) (lines (content w'))
  on_jsonl_events-lines to_record events w w' empty h =
      let (ls, ms, ones, whole) = on_jsonl_events-appends to_record events w w' h in
      let same : lines (content w') ≡ ls =
        ap lines (whole ∙ ap (λ c. c ++ joined ls) empty) ∙ lines-joined ls ones in
      subst (Marshalled marshal (records to_record events)) (sym same) ms
