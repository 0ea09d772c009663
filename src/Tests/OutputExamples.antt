-- ===== src/Tests/OutputExamples.antt =====
-- The capture of internal/runtimeexec/output.go with an operating system that serves every call.
use falken_core.Base.{
  [], ◌∷◌, true, false, none, some, ◌≡◌, refl, ◌&&◌, if◌then◌else◌, take, length, ltb, List,
}
use falken_core.Base.Int.{pos}
use falken_core.Base.Text.{codes}
use falken_core.Output.{Bytes, System, new_output_collector, normalize_output_limit, write_all}
use falken_core.Output.Spill.{IsServing}
use falken_core.Output.Streams.{
  StreamChunk, stream_stdout, stream_stderr, CapturedOutput, output, new_command_output_collectors,
  write_streams, result, stdout_of, stderr_of, both_of, result_exact,
}
use falken_core.Output.Complete.{output_complete}
use mathlib.Core.List.{flatten}

abbrev sys : System
sys = record {
  mkdir_all = λ path. none;
  open_file = λ path. none;
  write_file = λ path content. none;
  close_file = λ path. none;
  artifact_name = λ root. codes "/out/command.txt";
}

abbrev serving : IsServing sys
serving = record {
  mkdir_all = λ path. refl;
  open_file = λ path. refl;
  write_file = λ path content. refl;
  close_file = λ path. refl;
}

abbrev chunks : List Bytes
chunks = (1 ∷ 2 ∷ []) ∷ (3 ∷ 4 ∷ 5 ∷ []) ∷ [] ∷ (6 ∷ []) ∷ []

output_complete_example :
    ((write_all sys (new_output_collector (pos 4) (codes "/out") true false) chunks).inline
      ≡ take (normalize_output_limit (pos 4)) (flatten chunks))
    × ((write_all sys (new_output_collector (pos 4) (codes "/out") true false) chunks).total
        ≡ length (flatten chunks))
    × ((write_all sys (new_output_collector (pos 4) (codes "/out") true false) chunks).artifact_file
        ≡ (if true && ltb (normalize_output_limit (pos 4)) (length (flatten chunks))
            then some (flatten chunks)
            else none))
    × ((write_all sys (new_output_collector (pos 4) (codes "/out") true false) chunks).artifact_err
        ≡ none)
output_complete_example = output_complete sys (pos 4) (codes "/out") true false chunks serving refl

abbrev stream_chunks : List StreamChunk
stream_chunks =
    record { stream = stream_stdout; bytes = 1 ∷ 2 ∷ [] }
    ∷ record { stream = stream_stderr; bytes = 9 ∷ [] }
    ∷ record { stream = stream_stdout; bytes = 3 ∷ 4 ∷ [] }
    ∷ []

result_exact_example :
    (out : CapturedOutput) × ((result sys (
        write_streams sys
          (new_command_output_collectors (codes "/out") true (pos 3))
          stream_chunks)).0
      ≡ output out)
    × (out.stdout ≡ take (normalize_output_limit (pos 3)) (flatten (stdout_of stream_chunks)))
    × (out.stderr ≡ take (normalize_output_limit (pos 3)) (flatten (stderr_of stream_chunks)))
    × (out.combined ≡ take (normalize_output_limit (pos 3)) (flatten (both_of stream_chunks)))
    × (out.summary.truncated
        ≡ ltb (normalize_output_limit (pos 3)) (length (flatten (both_of stream_chunks))))
    × (out.summary.original_bytes ≡ length (flatten (both_of stream_chunks)))
result_exact_example = result_exact sys serving (pos 3) (codes "/out") true stream_chunks refl
