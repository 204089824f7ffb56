-- ===== src/Jsonl/Tests.antt =====
-- internal/pipeline/jsonl_sink.go: two events, with `{}` as the JSON of each.
use Prim.Native.String.{String}
use go_core_lab.Common.{
  ℕ, ◌≡◌, refl, sym, subst, Bytes, List, [], ◌∷◌, ◌++◌, Result, ok, ok_inj, arith,
}
use go_core_lab.Pipeline.Types.{PipelineEvent, zero_event}
use go_core_lab.Jsonl.{JsonEventRecord, event_record, write_record, on_jsonl_event, on_jsonl_events}
use go_core_lab.Jsonl.Lines.{OneLine, lines, records, Marshalled, on_jsonl_events-lines}

abbrev braces : JsonEventRecord → Result ℕ Bytes
braces rec = ok (0x7b ∷ 0x7d ∷ [])

abbrev append_bytes : Bytes → Bytes → Result ℕ Bytes
append_bytes w b = ok (w ++ b)

abbrev no_text : Bytes → String
no_text b = ""

abbrev to_record : PipelineEvent → JsonEventRecord
to_record = event_record no_text no_text no_text (λ t. "") (λ e. "")

abbrev two_events : List PipelineEvent
two_events = zero_event ∷ record zero_event { id = 1 } ∷ []

abbrev two_lines : Bytes
two_lines = 0x7b ∷ 0x7d ∷ 10 ∷ 0x7b ∷ 0x7d ∷ 10 ∷ []

braces-OneLine : (rec : JsonEventRecord) (l : Bytes) → braces rec ≡ ok l → OneLine l
braces-OneLine rec l h =
    subst OneLine (ok_inj h) ((λ e. omega (arith, e)), ((λ e. omega (arith, e)), tt))

appended : (w w' b : Bytes) → append_bytes w b ≡ ok w' → w' ≡ w ++ b
appended w w' b h = sym (ok_inj h)

two_written : on_jsonl_events braces append_bytes to_record two_events [] ≡ ok two_lines
unfolding on_jsonl_events on_jsonl_event write_record
two_written = refl

on_jsonl_events-lines_example : Marshalled braces (records to_record two_events) (lines two_lines)
on_jsonl_events-lines_example =
    on_jsonl_events-lines braces append_bytes (λ w. w) braces-OneLine appended to_record two_events
      [] two_lines refl two_written
