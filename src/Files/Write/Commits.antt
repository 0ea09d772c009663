-- ===== src/Files/Write/Commits.antt =====
-- What a commit of a managed write leaves, internal/files/write.go.
use falken_core.Base.{
  ℕ, zero, suc, subst, ◌&&◌, ◌||◌, Bool, true, false, not, Option, none, some, ◌≡◌, ◌≢◌, refl, ap,
  ◌∙◌, arith, if◌then◌else◌,
}
use falken_core.Base.Text.{Text, codes}
use falken_core.Files.Fallible.{ok, err, if_split, fallible_split}
use falken_core.Files.System.{
  FileSystem, IsReliable, FileInfo, Committed, done, exists_already, may_have_occurred, not_done,
}
use falken_core.Files.Types.{
  ReadToken, WriteStatus, status_created, status_overwritten, status_commit_uncertain,
  status_already_exists, status_stale_read_token, WriteRequest, WriteResult,
}
use falken_core.Files.Tokens.{same_file_version, token_for_file}
use falken_core.Files.Service.{Service}
use falken_core.Files.Write.{
  WriteAnswer, WriteFailure, target_exists, token_stale, mutation_uncertain, write_failed,
  validate_commit, commit_failure, write_workspace_file, finish_write, commit_write, exists_of,
  write_mode, is_create, is_overwrite, default_operation, reject,
}

-- The statuses of a write that changed a file, or may have.
abbrev pub is_mutation : WriteStatus → Bool
is_mutation status_created = true
is_mutation status_overwritten = true
is_mutation status_commit_uncertain = true
is_mutation _ = false

module _ {D : Type 0} (sys : FileSystem D) where
  -- The files are the same, but for the service's own temporary files and backups.
  abbrev pub SameFiles : D → D → Type 0
  SameFiles d d' = (p : Text) → sys.is_own p ≡ false → sys.snapshot d' p ≡ sys.snapshot d p

  -- The files are as so many turns of other processes have left them.
  abbrev pub KeptOver : ℕ → D → D → Type 0
  KeptOver zero d d' = SameFiles d d'
  KeptOver (suc n) d d' = (between : D) × SameFiles d between × KeptOver n (sys.others between) d'

  abbrev pub Kept : D → D → Type 0
  Kept d d' = (turns : ℕ) × KeptOver turns d d'

  pub Kept-after : (d d' disk : D) → SameFiles d d' → Kept d' disk → Kept d disk
  Kept-after d d' disk same (zero, kept) = (0, λ p o. kept p o ∙ same p o)
  Kept-after d d' disk same (suc n, (between, before, after)) =
      (suc n, (between, λ p o. before p o ∙ same p o, after))

  abbrev pub Judge : Bool → Type 0 → Type 0 → Type 0
  Judge true changed kept = changed
  Judge false changed kept = kept

  -- A result that tells of a change comes with G of the disk, another one with files that the write has not touched.
  abbrev pub Judged : (D → Type 0) → D → WriteAnswer sys → Type 0
  Judged G d (err e, after) = Unit
  Judged G d (ok r, (s, d')) = Judge (is_mutation r.status) (G d') (Kept d d')

  -- The token, if there is one, is that of the file at the disk.
  abbrev pub IsRight : Option ReadToken → D → Type 0
  IsRight none before = Unit
  IsRight (some token) before =
      (current : ReadToken) × (token_for_file sys before token.scope_id token.path none
        ≡ ok current)
      × (same_file_version token current ≡ true)

  -- The disk is what a commit to the path made of it one turn of other processes after the token, if there
  -- is one, was right; only other processes had touched the files until then.
  abbrev pub Commits : D → Text → Text → ℕ → Bool → Option ReadToken → D → Type 0
  Commits d path bytes mode no_replace expected disk =
      (before : D) × Kept d before
      × IsRight expected before
      × (disk ≡ (sys.commit (sys.others before) path bytes mode no_replace).1)

  validated-IsRight :
      (before : D) (expected : Option ReadToken)
      → validate_commit sys before expected ≡ none
      → IsRight expected before
  unfolding validate_commit
  validated-IsRight before none h = tt
  validated-IsRight before (some token) h =
      let P = λ (r : Option WriteFailure). r ≡ none → IsRight (some token) before in
      fallible_split P (token_for_file sys before token.scope_id token.path none) _ _
        (λ e k l. absurd (cc))
        (λ current k.
          if_split P (same_file_version token current) _ _ (λ same l. (current, k, same))
            (λ other l. absurd (cc)))
        h

  finish-Judged :
      (G : D → Type 0) (s : Service) (d d' : D) (request : WriteRequest) (path : Text)
      (exists : Bool) (result : WriteResult)
      → G d'
      → Judged G d (finish_write sys s d' request path exists result)
  unfolding finish_write
  finish-Judged G s d d' request path true result g =
      fallible_split (Judged G d) (token_for_file sys d' s.tokens.scope_id path (some (sys.now d')))
        _ _ (λ e h. tt) (λ token h. g)
  finish-Judged G s d d' request path false result g =
      fallible_split (Judged G d) (token_for_file sys d' s.tokens.scope_id path (some (sys.now d')))
        _ _ (λ e h. tt) (λ token h. g)

  pub Judged-map :
      (G H : D → Type 0) (d d' : D) (out : WriteAnswer sys)
      → ((disk : D) → G disk → H disk)
      → SameFiles d d'
      → Judged G d' out
      → Judged H d out
  Judged-map G H d d' (err e, after) f same j = tt
  Judged-map G H d d' (ok r, (s, disk)) f same j = pick (is_mutation r.status) j
    where
      pick : (b : Bool) → Judge b (G disk) (Kept d' disk) → Judge b (H disk) (Kept d disk)
      pick true g = f disk g
      pick false kept = Kept-after d d' disk same kept

  validate_certain :
      (d : D) (expected : Option ReadToken) (reason : Text)
      → validate_commit sys d expected ≢ some (mutation_uncertain reason)
  unfolding validate_commit
  validate_certain d none reason h = cc
  validate_certain d (some token) reason h = ground arith

  -- What was there has let the operation pass: nothing to create over, and something to overwrite.
  abbrev pub Fits : WriteRequest → Option FileInfo → Type 0
  Fits request info =
      ((is_create (default_operation request.operation) && exists_of info) ≡ false)
      × ((is_overwrite (default_operation request.operation) && not (exists_of info)) ≡ false)

  no_replace-exact :
      (request : WriteRequest) (info : Option FileInfo)
      → Fits request info
      → (is_create (default_operation request.operation)
          || not (is_overwrite (default_operation request.operation)) && not (exists_of info))
        ≡ not (exists_of info)
  no_replace-exact request info fits = ground arith

  -- The commit of a request: it puts nothing over a file where none was there.
  abbrev pub Puts : D → WriteRequest → Text → Option FileInfo → Option ReadToken → D → Type 0
  Puts d request path info expected disk =
      Commits d path request.content (write_mode request.mode info) (not (exists_of info)) expected
        disk

  pub Puts-after :
      (d d' : D) (request : WriteRequest) (path : Text) (info : Option FileInfo)
      (expected : Option ReadToken) (disk : D)
      → SameFiles d d'
      → Puts d' request path info expected disk
      → Puts d request path info expected disk
  Puts-after d d' request path info expected disk same (before, kept, right, made) =
      (before, Kept-after d d' before same kept, right, made)

  module _ (reliable : IsReliable sys) where
    -- What the write of a file has done, by its failure.
    abbrev WriteDone :
        D → Text → Text → ℕ → Bool → Option ReadToken → Option WriteFailure × D → Type 0
    WriteDone d path bytes mode no_replace expected (none, disk) =
        Commits d path bytes mode no_replace expected disk
    WriteDone d path bytes mode no_replace expected (some target_exists, disk) = Kept d disk
    WriteDone d path bytes mode no_replace expected (some token_stale, disk) = Kept d disk
    WriteDone d path bytes mode no_replace expected (some (mutation_uncertain reason), disk) =
        Commits d path bytes mode no_replace expected disk
    WriteDone d path bytes mode no_replace expected (some (write_failed reason), disk) = Kept d disk

    committed-WriteDone :
        (d between before : D) (path bytes : Text) (mode : ℕ) (no_replace : Bool)
        (expected : Option ReadToken)
        → SameFiles d between
        → before ≡ sys.others between
        → validate_commit sys before expected ≡ none
        → (c : Committed) → (sys.commit (sys.others before) path bytes mode no_replace).0 ≡ c
        → WriteDone d path bytes mode no_replace expected
            (commit_failure sys c, (sys.commit (sys.others before) path bytes mode no_replace).1)
    unfolding commit_failure
    committed-WriteDone d between before path bytes mode no_replace expected same turn right done
          h =
        (
          before,
          (1, (between, same, λ p o. ap (λ e. sys.snapshot e p) turn)),
          validated-IsRight before expected right,
          refl,
        )
    committed-WriteDone d between before path bytes mode no_replace expected same turn right
          (may_have_occurred reason) h =
        (
          before,
          (1, (between, same, λ p o. ap (λ e. sys.snapshot e p) turn)),
          validated-IsRight before expected right,
          refl,
        )
    committed-WriteDone d between before path bytes mode no_replace expected same turn right
          exists_already h =
        let kept = reliable.exists_keeps (sys.others before) path bytes mode no_replace in
        (2, (between, same, (before, (λ p o. ap (λ e. sys.snapshot e p) turn), λ p o. kept p o h)))
    committed-WriteDone d between before path bytes mode no_replace expected same turn right
          (not_done reason) h =
        let kept = reliable.failed_keeps (sys.others before) path bytes mode no_replace reason in
        (2, (between, same, (before, (λ p o. ap (λ e. sys.snapshot e p) turn), λ p o. kept p o h)))

    validated-WriteDone :
        (d between before : D) (path bytes : Text) (mode : ℕ) (no_replace : Bool)
        (expected : Option ReadToken)
        → SameFiles d between
        → before ≡ sys.others between
        → (failure : Option WriteFailure) → validate_commit sys before expected ≡ failure
        → WriteDone d path bytes mode no_replace expected (elim failure [
          | some failure' ↦ (some failure', before)
          | none ↦ (
            commit_failure sys (sys.commit (sys.others before) path bytes mode no_replace).0,
            (sys.commit (sys.others before) path bytes mode no_replace).1,
          )
        ])
    validated-WriteDone d between before path bytes mode no_replace expected same turn none h =
        committed-WriteDone d between before path bytes mode no_replace expected same turn h _ refl
    validated-WriteDone d between before path bytes mode no_replace expected same turn
          (some target_exists) h =
        (1, (between, same, λ p o. ap (λ e. sys.snapshot e p) turn))
    validated-WriteDone d between before path bytes mode no_replace expected same turn
          (some token_stale) h =
        (1, (between, same, λ p o. ap (λ e. sys.snapshot e p) turn))
    validated-WriteDone d between before path bytes mode no_replace expected same turn
          (some (write_failed reason)) h =
        (1, (between, same, λ p o. ap (λ e. sys.snapshot e p) turn))
    validated-WriteDone d between before path bytes mode no_replace expected same turn
          (some (mutation_uncertain reason)) h =
        absurd (validate_certain before expected reason h)

    write_workspace_file-WriteDone :
        (d : D) (path bytes : Text) (mode : ℕ) (no_replace : Bool) (expected : Option ReadToken)
        → WriteDone d path bytes mode no_replace expected
            (write_workspace_file sys d path bytes mode no_replace expected)
    unfolding write_workspace_file
    write_workspace_file-WriteDone d path bytes mode no_replace expected =
        prepared (sys.prepare d path bytes mode).0
      where
        before : D
        before = sys.others (sys.prepare d path bytes mode).1

        prepared :
            (reason : Option Text)
            → WriteDone d path bytes mode no_replace expected (elim reason [
              | some reason' ↦ (some (write_failed reason'), (sys.prepare d path bytes mode).1)
              | none ↦ elim (validate_commit sys before expected) [
                | some failure ↦ (some failure, before)
                | none ↦ (
                  commit_failure sys (sys.commit (sys.others before) path bytes mode no_replace).0,
                  (sys.commit (sys.others before) path bytes mode no_replace).1,
                )
              ]
            ])
        prepared (some reason) = (0, reliable.prepare_keeps d path bytes mode)
        prepared none =
            validated-WriteDone d (sys.prepare d path bytes mode).1 before path bytes mode
              no_replace expected (reliable.prepare_keeps d path bytes mode) refl
              (validate_commit sys before expected) refl

    failed-Judged :
        (s : Service) (d : D) (request : WriteRequest) (path : Text) (exists : Bool)
        (result : WriteResult) (mode : ℕ) (no_replace : Bool)
        → (expected : Option ReadToken) (failure : Option WriteFailure) (disk : D)
        → WriteDone d path request.content mode no_replace expected (failure, disk)
        → Judged (Commits d path request.content mode no_replace expected) d (elim failure [
          | none ↦ finish_write sys s disk request path exists result
          | some target_exists ↦
              (ok (reject result status_already_exists (codes "target already exists")), (s, disk))
          | some (mutation_uncertain reason) ↦ (
            ok (record (reject result status_commit_uncertain reason) {
              mutation_may_have_occurred = true;
              overwritten = exists;
              created = not exists;
            }),
            (s, disk),
          )
          | some token_stale ↦ (
            ok (reject result status_stale_read_token (codes "target changed before commit")),
            (s, disk),
          )
          | some (write_failed reason) ↦ (err reason, (s, disk))
        ])
    unfolding reject
    failed-Judged s d request path exists result mode no_replace expected none disk wrote =
        finish-Judged (Commits d path request.content mode no_replace expected) s d disk request
          path exists result wrote
    failed-Judged s d request path exists result mode no_replace expected (some target_exists) disk
          wrote =
        wrote
    failed-Judged s d request path exists result mode no_replace expected (some token_stale) disk
          wrote =
        wrote
    failed-Judged s d request path exists result mode no_replace expected
          (some (mutation_uncertain reason)) disk wrote =
        wrote
    failed-Judged s d request path exists result mode no_replace expected
          (some (write_failed reason)) disk wrote =
        tt

    pub commit_write-Judged :
        (s : Service) (d : D) (request : WriteRequest) (path : Text) (info : Option FileInfo)
        (result : WriteResult)
        → Fits request info
        → Judged
            (Puts d request path info (if exists_of info then result.token else none))
            d
            (commit_write sys s d request path info result)
    unfolding commit_write
    commit_write-Judged s d request path info result fits =
        let expected = if exists_of info then result.token else none in
        let mode = write_mode request.mode info in
        let judged =
          failed-Judged s d request path (exists_of info) result mode _ expected _ _
            (write_workspace_file-WriteDone d path request.content mode _ expected) in
        subst
          (λ b.
            Judged (Commits d path request.content mode b expected) d
              (commit_write sys s d request path info result))
          (no_replace-exact request info fits) judged
