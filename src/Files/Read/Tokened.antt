-- ===== src/Files/Read/Tokened.antt =====
-- The tokens that a read issues, internal/files/read.go with tokens.go.
use falken_core.Base.{
  ℕ, Bool, true, false, not, Option, none, some, ◌≡◌, refl, sym, ap, ◌∙◌, subst, arith, is_nil,
}
use falken_core.Base.Text.{Text}
use falken_core.Base.Text.Laws.{text_eq_refl}
use falken_core.Path.{clean}
use falken_core.Policy.Runtime.{runtime_evaluate_file}
use falken_core.Files.Fallible.{ok, err, if_both, fallible_split}
use falken_core.Files.System.{FileSystem, IsReliable, FileInfo, SystemError, not_exist, other_error}
use falken_core.Files.Types.{ReadToken}
use falken_core.Files.Tokens.{
  TokenRegistry, record_token, find_token, lookup, same_file_version, token_for_snapshot,
  token_for_file,
}
use falken_core.Files.Service.{Service}
use falken_core.Files.Write.Safe.{answer_split}
use falken_core.Files.Read.{
  ReadStatus, read_ok, ReadRequest, ReadResult, ReadAnswer, read_refused, read_snapshot_of,
  read_resolved, read_with, initial_read, read_policy_request, validate_line_range, read_not_found,
  read_unsafe,
}

module _ {D : Type 0} (sys : FileSystem D) (d : D) where
  -- The registry has a token for the path that the file matches.
  abbrev pub Matches : TokenRegistry → Text → Type 0
  Matches registry path =
      (token : ReadToken) × (current : ReadToken) × (lookup registry path ≡ some token)
      × (token_for_file sys d token.scope_id token.path none ≡ ok current)
      × (same_file_version token current ≡ true)

  same_version :
      (a b : ReadToken)
      → a.path ≡ b.path
      → a.content_hash ≡ b.content_hash
      → a.size ≡ b.size
      → a.mod_time ≡ b.mod_time
      → a.device ≡ b.device
      → a.inode ≡ b.inode
      → same_file_version a b ≡ true
  unfolding same_file_version
  same_version a b p h s m v i = ground (arith, text_eq_refl b.path, text_eq_refl b.content_hash)

  lookup-record_token :
      (registry : TokenRegistry) (token : ReadToken) (path : Text)
      → token.path ≡ clean path
      → lookup (record_token registry token) path ≡ some token
  unfolding lookup find_token record_token
  lookup-record_token registry token path e = ground (arith, text_eq_refl token.path)

  recorded-Matches :
      (registry : TokenRegistry) (path bytes : Text) (info : FileInfo) (time : Option ℕ)
      → clean path ≡ path
      → sys.snapshot d path ≡ ok (bytes, info)
      → Matches
          (record_token registry (token_for_snapshot sys d registry.scope_id path bytes info time))
          path
  unfolding token_for_snapshot token_for_file
  recorded-Matches registry path bytes info time fixed shot =
      let token = token_for_snapshot sys d registry.scope_id path bytes info time in
      let current = token_for_snapshot sys d registry.scope_id path bytes info none in
      let e : clean (clean path) ≡ path = ap clean fixed ∙ fixed in
      let now : sys.snapshot d (clean (clean path)) ≡ ok (bytes, info) = rw e shot in
      let file : token_for_file sys d registry.scope_id (clean path) none ≡ ok current =
        rw now (ap (λ p. ok (token_for_snapshot sys d registry.scope_id p bytes info none)) e) in
      (
        token,
        current,
        lookup-record_token registry token path refl,
        file,
        same_version token current refl refl refl refl refl refl,
      )

  -- A read that is granted leaves a token that the file matches, if one is to be issued; else the tokens
  -- are as they were.
  abbrev pub TokenJudge : ReadStatus → Bool → TokenRegistry → TokenRegistry → Text → Type 0
  TokenJudge read_ok true before after path = Matches after path
  TokenJudge read_ok false before after path = after ≡ before
  TokenJudge _ issue before after path = after ≡ before

  abbrev pub ReadJudged : Bool → TokenRegistry → ReadAnswer sys → Type 0
  ReadJudged issue before (err e, s) = s.tokens ≡ before
  ReadJudged issue before (ok r, s) = TokenJudge r.status issue before s.tokens r.resolved_path

  snapshot-ReadJudged :
      (s : Service) (request : ReadRequest) (path : Text) (issue : Bool) (result : ReadResult)
      → clean path ≡ path
      → result.resolved_path ≡ path
      → ReadJudged issue s.tokens (read_snapshot_of sys s d request path issue result)
  unfolding read_snapshot_of
  snapshot-ReadJudged s request path false result fixed same =
      fallible_split (ReadJudged false s.tokens) (sys.snapshot d path) _ _ (λ e h. refl)
        (λ shot h. refl)
  snapshot-ReadJudged s request path true result fixed same =
      fallible_split (ReadJudged true s.tokens) (sys.snapshot d path) _ _ (λ e h. refl)
        (λ (bytes, info) shot.
          let token =
            token_for_snapshot sys d s.tokens.scope_id path bytes info (some (sys.now d)) in
          if_both (ReadJudged true s.tokens) (is_nil token.id) _ _ refl (
            subst (Matches (record_token s.tokens token)) (sym same)
              (recorded-Matches s.tokens path bytes info (some (sys.now d)) fixed shot)))

  read_resolved-ReadJudged :
      (s : Service) (request : ReadRequest) (path : Text) (issue : Bool) (result : ReadResult)
      → clean path ≡ path
      → result.resolved_path ≡ path
      → ReadJudged issue s.tokens (read_resolved sys s d request path issue result)
  unfolding read_resolved read_refused
  read_resolved-ReadJudged s request path issue result fixed same =
      let P = ReadJudged issue s.tokens in
      let answer = runtime_evaluate_file s.policy (read_policy_request request path) in
      let s' : Service = record s { policy = answer.1 } in
      fallible_split P (sys.stat d path) _ _ (λ e h. refl)
        (λ info h. if_both P info.is_dir _ _ refl (
          answer_split P answer.0 _ _ (λ e. refl)
            (λ access leave. if_both P (not access.allowed) _ _ refl (
              snapshot-ReadJudged s' request path issue (record result { policy = some access })
                fixed same))))

  -- A read for a caller that is granted leaves a token for the path that the file on the disk matches, so
  -- that a write may follow; a read of any other result, and one for the service's own use, issues no
  -- token.
  pub read_with_judged :
      (issue : Bool) (s : Service) (request : ReadRequest)
      → IsReliable sys
      → ReadJudged issue s.tokens (read_with sys issue s d request)
  unfolding read_with read_refused
  read_with_judged issue s request reliable =
      let P = ReadJudged issue s.tokens in
      let target = sys.resolve_existing d request.current_working_dir request.path in
      if_both P (not (validate_line_range request.start_line request.end_line)) _ _ refl (
        fallible_split P target _ _ (λ e h. refused e)
          (λ path h.
            let fixed =
              reliable.resolve_keeps_clean d request.current_working_dir request.path path h in
            read_resolved-ReadJudged s request path issue
              (record (initial_read request) { resolved_path = path }) fixed refl))
    where
      refused :
          (e : SystemError)
          → ReadJudged issue s.tokens (elim e [
            | not_exist reason ↦ (ok (read_refused (initial_read request) read_not_found reason), s)
            | other_error reason ↦ (ok (read_refused (initial_read request) read_unsafe reason), s)
          ])
      refused (not_exist reason) = refl
      refused (other_error reason) = refl
