-- ===== src/Output/Streams.antt =====
-- The collectors of a command's two streams, internal/runtimeexec/output.go and the stream writers of
-- internal/runtimeexec/executor.go. The writes are taken in the order in which the combined collector
-- takes them; within a stream it is the order of the stream.
use mathlib.Core.List.{flatten}
use falken_core.Base.{
  List, [], ◌∷◌, ◌++◌, Bool, true, false, not, ◌&&◌, none, ◌≡◌, refl, ap, ◌∙◌, arith, if◌then◌else◌,
  length, take, is_nil, ltb,
}
use falken_core.Base.Int.{ℤ, pos, is_positive}
use falken_core.Base.Text.{Text}
use falken_core.Output.{
  Bytes, OutputError, System, OutputCollector, OutputSummary, normalize_output_limit,
  new_output_collector, write, write_all, Snapshot, captured, failed, snapshot,
}
use falken_core.Output.Spill.{IsServing}
use falken_core.Output.Complete.{write_all_new-Holds}

pub data StreamName : Type 0 where
  stream_stdout stream_stderr : StreamName

pub record StreamChunk : Type 0 where
  pub stream : StreamName
  pub bytes : Bytes

pub record CommandOutputCollectors : Type 0 where
  pub stdout : OutputCollector
  pub stderr : OutputCollector
  pub combined : OutputCollector

pub record CapturedOutput : Type 0 where
  pub stdout : Bytes
  pub stderr : Bytes
  pub combined : Bytes
  pub summary : OutputSummary

-- The output, or the errors that are joined.
pub data Outcome : Type 0 where
  output : CapturedOutput → Outcome
  output_failed : List OutputError → Outcome

-- The state's directory for artifacts, and whether its workspace is virtual, are arguments.
unfoldable pub new_command_output_collectors : Text → Bool → ℤ → CommandOutputCollectors
unfolding new_output_collector normalize_output_limit
new_command_output_collectors root virtual limit =
    let n = pos (normalize_output_limit limit) in
    record {
      stdout = new_output_collector n [] false false;
      stderr = new_output_collector n [] false false;
      combined = new_output_collector n root true (not virtual);
    }

-- The writer of a stream: its own collector, then the combined one.
unfoldable pub write_stream :
    System → CommandOutputCollectors → StreamChunk → CommandOutputCollectors
write_stream sys c chunk = elim chunk.stream [
  | stream_stdout ↦ record c {
    stdout = write sys c.stdout chunk.bytes;
    combined = write sys c.combined chunk.bytes;
  }
  | stream_stderr ↦ record c {
    stderr = write sys c.stderr chunk.bytes;
    combined = write sys c.combined chunk.bytes;
  }
]

unfoldable pub write_streams :
    System → CommandOutputCollectors → List StreamChunk → CommandOutputCollectors
unfolding write_stream
write_streams sys c [] = c
write_streams sys c (chunk ∷ chunks) = write_streams sys (write_stream sys c chunk) chunks

error_of : Snapshot → List OutputError
error_of (captured inline summary) = []
error_of (failed e) = e ∷ []

unfoldable pub join_snapshots : Snapshot → Snapshot → Snapshot → Outcome
unfolding error_of
join_snapshots (captured stdout s) (captured stderr t) (captured combined summary) =
    output (record { stdout = stdout; stderr = stderr; combined = combined; summary = summary })
join_snapshots s t u = output_failed (error_of s ++ (error_of t ++ error_of u))

unfoldable pub result : System → CommandOutputCollectors → Outcome × CommandOutputCollectors
unfolding join_snapshots
result sys c =
    let (s, stdout) = snapshot sys c.stdout in
    let (t, stderr) = snapshot sys c.stderr in
    let (u, combined) = snapshot sys c.combined in
    (join_snapshots s t u, record { stdout = stdout; stderr = stderr; combined = combined })

-- What was written to one stream, and to both.
abbrev is_stdout : StreamName → Bool
is_stdout stream_stdout = true
is_stdout stream_stderr = false

unfoldable pub stdout_of : List StreamChunk → List Bytes
stdout_of [] = []
stdout_of (chunk ∷ chunks) =
    let rest = stdout_of chunks in if is_stdout chunk.stream then chunk.bytes ∷ rest else rest

unfoldable pub stderr_of : List StreamChunk → List Bytes
stderr_of [] = []
stderr_of (chunk ∷ chunks) =
    let rest = stderr_of chunks in if is_stdout chunk.stream then rest else chunk.bytes ∷ rest

unfoldable pub both_of : List StreamChunk → List Bytes
both_of [] = []
both_of (chunk ∷ chunks) = chunk.bytes ∷ both_of chunks

-- Each collector takes what was written to it, whatever the interleaving.
write_streams-each :
    (sys : System) (c : CommandOutputCollectors) (chunks : List StreamChunk)
    → write_streams sys c chunks ≡ record {
      stdout = write_all sys c.stdout (stdout_of chunks);
      stderr = write_all sys c.stderr (stderr_of chunks);
      combined = write_all sys c.combined (both_of chunks);
    }
unfolding write_streams write_all stdout_of stderr_of both_of
write_streams-each sys c [] = refl
write_streams-each sys c (chunk ∷ chunks) =
    ground (arith, write_streams-each sys (write_stream sys c chunk) chunks)

-- What a collector without an error shows.
shows : OutputCollector → OutputSummary
shows c = record {
  truncated = ltb c.limit c.total;
  artifact_path = c.artifact_path;
  artifact_workspace_accessible = not (is_nil c.artifact_path) && c.workspace_accessible;
  inline_limit = c.limit;
  original_bytes = c.total;
  preview_bytes = length c.inline;
}

snapshot-captured :
    (sys : System) (c : OutputCollector)
    → IsServing sys
    → c.artifact_err ≡ none
    → (snapshot sys c).0 ≡ captured c.inline (shows c)
unfolding snapshot shows
snapshot-captured sys c serving fine = ground (arith, serving.close_file c.artifact_path)

normalize-normalize :
    (limit : ℤ)
    → normalize_output_limit (pos (normalize_output_limit limit)) ≡ normalize_output_limit limit
unfolding normalize_output_limit is_positive
normalize-normalize limit = ground arith

module _ (sys : System) (serving : IsServing sys) (limit : ℤ) where
  stream_snapshot :
      (root : Text) (spool accessible : Bool) (chunks : List Bytes)
      → (spool && is_nil root) ≡ false
      → (summary : OutputSummary) × ((snapshot sys (
            write_all sys
              (new_output_collector (pos (normalize_output_limit limit)) root spool accessible)
              chunks)).0
          ≡ captured (take (normalize_output_limit limit) (flatten chunks)) summary)
        × (summary.truncated ≡ ltb (normalize_output_limit limit) (length (flatten chunks)))
        × (summary.original_bytes ≡ length (flatten chunks))
  unfolding shows
  stream_snapshot root spool accessible chunks named =
      let m = pos (normalize_output_limit limit) in
      let n = normalize-normalize limit in
      let c = write_all sys (new_output_collector m root spool accessible) chunks in
      let h = write_all_new-Holds sys m root spool accessible chunks serving named in
      (
        shows c,
        snapshot-captured sys c serving h.no_error
            ∙ ap (λ bytes. captured bytes (shows c))
                (h.inline ∙ ap (λ k. take k (flatten chunks)) n),
        rw (h.limit_kept ∙ n, h.total) refl,
        h.total,
      )

  -- Where the operating system serves every call and there is a directory for artifacts, the result
  -- of a command holds the first bytes, up to the limit, of each of its streams, and of both in the
  -- order in which they were written; and the summary says exactly whether that cut them short.
  pub result_exact :
      (root : Text) (virtual : Bool) (chunks : List StreamChunk)
      → is_nil root ≡ false
      → (out : CapturedOutput) × ((result sys
            (write_streams sys (new_command_output_collectors root virtual limit) chunks)).0
          ≡ output out)
        × (out.stdout ≡ take (normalize_output_limit limit) (flatten (stdout_of chunks)))
        × (out.stderr ≡ take (normalize_output_limit limit) (flatten (stderr_of chunks)))
        × (out.combined ≡ take (normalize_output_limit limit) (flatten (both_of chunks)))
        × (out.summary.truncated
            ≡ ltb (normalize_output_limit limit) (length (flatten (both_of chunks))))
        × (out.summary.original_bytes ≡ length (flatten (both_of chunks)))
  unfolding result new_command_output_collectors
  result_exact root virtual chunks named =
      let n = normalize-normalize limit in
      let each = write_streams-each sys (new_command_output_collectors root virtual limit) chunks in
      let (s, p, _, _) = stream_snapshot [] false false (stdout_of chunks) refl in
      let (t, q, _, _) = stream_snapshot [] false false (stderr_of chunks) refl in
      let (summary, r, cut, all) = stream_snapshot root true (not virtual) (both_of chunks) named in
      (
        record {
          stdout = take (normalize_output_limit limit) (flatten (stdout_of chunks));
          stderr = take (normalize_output_limit limit) (flatten (stderr_of chunks));
          combined = take (normalize_output_limit limit) (flatten (both_of chunks));
          summary = summary;
        },
        rw (each, p, q, r) refl,
        refl,
        refl,
        refl,
        cut,
        all,
      )
