-- ===== src/Output/Complete.antt =====
-- Nothing of a command's output is lost, however it comes in chunks, internal/runtimeexec/output.go.
use mathlib.Core.List.{flatten}
use falken_core.Base.{
  ℕ, ◌-◌, List, [], ◌∷◌, ◌++◌, append_assoc, append-nil, Bool, true, false, ◌&&◌, none, some, ◌≡◌,
  refl, sym, arith, if◌then◌else◌, length, take, drop, is_nil, ltb, length-append, Bool-cases, inl,
  inr, subst,
}
use falken_core.Base.Int.{ℤ}
use falken_core.Base.Text.{Text}
use falken_core.Output.{
  Bytes, System, OutputCollector, normalize_output_limit, new_output_collector, write_inline, write,
  write_all,
}
use falken_core.Output.Slices.{take_all, take_step, take-drop_step, drop_none}
use falken_core.Output.Spill.{IsServing, spilled, spill_new, spill_more}

-- A collector that has been written the bytes `out`, and was made with these settings.
pub record Holds (limit : ℕ) (root : Text) (spool : Bool) (out : Bytes) (c : OutputCollector)
    : Type 0 where
  pub limit_kept : c.limit ≡ limit
  pub root_kept : c.artifact_root ≡ root
  pub spool_kept : c.spool ≡ spool
  pub total : c.total ≡ length out
  pub inline : c.inline ≡ take limit out
  pub artifact : c.artifact_file ≡ (if spool && ltb limit (length out) then some out else none)
  pub no_error : c.artifact_err ≡ none
  pub still_open : c.closed ≡ false

-- One chunk more.
module _ (sys : System) (serving : IsServing sys) (limit : ℕ) (root : Text) (spool : Bool)
    (named : (spool && is_nil root) ≡ false) where
  inline_Holds :
      (out : Bytes) (c : OutputCollector) (chunk : Bytes)
      → Holds limit root spool out c
      → ((write_inline sys c chunk).inline ≡ take limit (out ++ chunk))
        × ((write_inline sys c chunk).total ≡ length (out ++ chunk))
        × ((write_inline sys c chunk).limit ≡ limit)
        × ((write_inline sys c chunk).artifact_root ≡ root)
        × ((write_inline sys c chunk).artifact_file ≡ c.artifact_file)
        × ((write_inline sys c chunk).artifact_err ≡ none)
        × ((write_inline sys c chunk).spool ≡ spool)
        × ((write_inline sys c chunk).closed ≡ false)
  unfolding write_inline
  inline_Holds out c chunk h =
      let kept = take_step limit out chunk in
      let len = length-append out chunk in
      (
        ground (arith, kept, h.inline, h.total, h.limit_kept),
        ground (arith, len, h.total),
        ground (arith, h.limit_kept),
        ground (arith, h.root_kept),
        ground arith,
        ground (arith, h.no_error),
        ground (arith, h.spool_kept),
        ground (arith, h.still_open),
      )

  offset_lem :
      (c : OutputCollector) (n m : ℕ)
      → c.limit ≡ n
      → c.total ≡ m
      → (if ltb c.total c.limit then c.limit - c.total else 0) ≡ n - m
  offset_lem c n m h k = ground arith

  write_fits :
      (out : Bytes) (c : OutputCollector) (chunk : Bytes)
      → Holds limit root spool out c
      → (spool && ltb limit (length (out ++ chunk))) ≡ false
      → write sys c chunk ≡ write_inline sys c chunk
  unfolding write
  write_fits out c chunk h fits =
      let (_, total, lim, _, _, _, _, _) = inline_Holds out c chunk h in
      ground (arith, h.spool_kept, total, lim)

  write_over :
      (out : Bytes) (c : OutputCollector) (chunk : Bytes)
      → Holds limit root spool out c
      → (spool && ltb limit (length (out ++ chunk))) ≡ true
      → write sys c chunk
        ≡ spilled sys serving (write_inline sys c chunk) (drop (limit - length out) chunk)
  unfolding write spilled
  write_over out c chunk h over =
      let (_, total, lim, _, _, _, _, _) = inline_Holds out c chunk h in
      ground (arith, h.spool_kept, total, lim, offset_lem c limit (length out) h.limit_kept h.total)

  over_Holds :
      (out : Bytes) (c : OutputCollector) (chunk : Bytes)
      → Holds limit root spool out c
      → (spool && ltb limit (length (out ++ chunk))) ≡ true
      → Holds limit root spool
          (out ++ chunk)
          (spilled sys serving (write_inline sys c chunk) (drop (limit - length out) chunk))
  over_Holds out c chunk h over =
      let (kept, total, lim, rt, file, err, sp, cl) = inline_Holds out c chunk h in
      let c' = write_inline sys c chunk in
      let rest = drop (limit - length out) chunk in
      elim (Bool-cases (ltb limit (length out))) [
        | inl more ↦
            let now : rest ≡ chunk = drop_none (limit - length out) chunk (ground arith) in
            let had : c'.artifact_file ≡ some out = ground (arith, h.artifact, file) in
            subst (Holds limit root spool (out ++ chunk))
              (sym (spill_more sys serving c' rest out had))
              (record {
                limit_kept = lim;
                root_kept = rt;
                spool_kept = sp;
                total = total;
                inline = kept;
                artifact = rw (over, now);
                no_error = err;
                still_open = cl;
              })
        | inr new ↦
            let had : c'.artifact_file ≡ none = ground (arith, h.artifact, file) in
            let whole : c'.inline ++ rest ≡ out ++ chunk =
              rw kept (take-drop_step limit out chunk (ground arith)) in
            subst (Holds limit root spool (out ++ chunk))
              (sym (spill_new sys serving c' rest (rw rt (ground arith)) had err))
              (record {
                limit_kept = lim;
                root_kept = rt;
                spool_kept = sp;
                total = total;
                inline = kept;
                artifact = rw (over, whole);
                no_error = err;
                still_open = cl;
              })
      ]

  write-Holds :
      (out : Bytes) (c : OutputCollector) (chunk : Bytes)
      → Holds limit root spool out c
      → Holds limit root spool (out ++ chunk) (write sys c chunk)
  write-Holds out c chunk h =
      let (kept, total, lim, rt, file, err, sp, cl) = inline_Holds out c chunk h in
      elim (Bool-cases (spool && ltb limit (length (out ++ chunk)))) [
        | inr fits ↦
            subst (Holds limit root spool (out ++ chunk)) (sym (write_fits out c chunk h fits))
              (record {
                limit_kept = lim;
                root_kept = rt;
                spool_kept = sp;
                total = total;
                inline = kept;
                artifact = rw fits (ground (arith, file, h.artifact, length-append out chunk));
                no_error = err;
                still_open = cl;
              })
        | inl over ↦
            subst (Holds limit root spool (out ++ chunk)) (sym (write_over out c chunk h over))
              (over_Holds out c chunk h over)
      ]

  write_all-Holds :
      (out : Bytes) (c : OutputCollector) (chunks : List Bytes)
      → Holds limit root spool out c
      → Holds limit root spool (out ++ flatten chunks) (write_all sys c chunks)
  unfolding write_all flatten
  write_all-Holds out c [] h = rw append-nil h
  write_all-Holds out c (chunk ∷ chunks) h =
      rw (← append_assoc out chunk (flatten chunks))
        (write_all-Holds (out ++ chunk) (write sys c chunk) chunks (write-Holds out c chunk h))

new-Holds :
    (limit : ℤ) (root : Text) (spool accessible : Bool)
    → Holds
        (normalize_output_limit limit)
        root
        spool
        []
        (new_output_collector limit root spool accessible)
unfolding new_output_collector
new-Holds limit root spool accessible =
    let n = normalize_output_limit limit in
    record {
      limit_kept = refl;
      root_kept = refl;
      spool_kept = refl;
      total = refl;
      inline = sym (take_all n [] (omega arith));
      artifact = ground arith;
      no_error = refl;
      still_open = refl;
    }

-- A new collector that is written chunks holds their bytes.
pub write_all_new-Holds :
    (sys : System) (limit : ℤ) (root : Text) (spool accessible : Bool) (chunks : List Bytes)
    → IsServing sys
    → (spool && is_nil root) ≡ false
    → Holds
        (normalize_output_limit limit)
        root
        spool
        (flatten chunks)
        (write_all sys (new_output_collector limit root spool accessible) chunks)
write_all_new-Holds sys limit root spool accessible chunks serving named =
    write_all-Holds sys serving (normalize_output_limit limit) root spool named []
      (new_output_collector limit root spool accessible) chunks
      (new-Holds limit root spool accessible)

-- Where the operating system serves every call and a spooling collector has a directory, the preview and the summary depend on what was
-- written and not on its chunks: the preview is the first bytes up to the limit, the count is of all
-- bytes, and a spooling collector has kept every byte, in order, in the artifact exactly if the
-- output is longer than the limit.
pub output_complete :
    (sys : System) (limit : ℤ) (root : Text) (spool accessible : Bool) (chunks : List Bytes)
    → IsServing sys
    → (spool && is_nil root) ≡ false
    → ((write_all sys (new_output_collector limit root spool accessible) chunks).inline
        ≡ take (normalize_output_limit limit) (flatten chunks))
      × ((write_all sys (new_output_collector limit root spool accessible) chunks).total
          ≡ length (flatten chunks))
      × ((write_all sys (new_output_collector limit root spool accessible) chunks).artifact_file ≡ (
          if spool && ltb (normalize_output_limit limit) (length (flatten chunks))
          then some (flatten chunks)
          else none))
      × ((write_all sys (new_output_collector limit root spool accessible) chunks).artifact_err
          ≡ none)
output_complete sys limit root spool accessible chunks serving named =
    let h = write_all_new-Holds sys limit root spool accessible chunks serving named in
    (h.inline, h.total, h.artifact, h.no_error)
