-- ===== src/Files/Write/Safe.antt =====
-- Managed writes are guarded: Write of internal/files/write.go.
use falken_core.Base.{
  List, [], ◌∷◌, Bool-cases, inl, inr, true, Option, none, some, ◌≡◌, refl, arith, if◌then◌else◌,
  is_nil, inl,
}
use falken_core.Base.Text.{Text, text_eq}
use falken_core.Base.Text.Laws.{text_eq_iff}
use falken_core.Path.{clean}
use falken_core.Policy.Rules
use falken_core.Policy.Runtime.{AccessResult, runtime_evaluate_file}
use falken_core.Files.Fallible.{Fallible, ok, err, if_both, fallible_split}
use falken_core.Files.System.{FileSystem, IsReliable, FileInfo, SystemError, not_exist}
use falken_core.Files.Types.{ReadToken, WriteRequest}
use falken_core.Files.Secrets.{scan_secret_content}
use falken_core.Files.Tokens.{TokenRegistry, find_token, lookup}
use falken_core.Files.Service.{Service, backup_existing_file}
use falken_core.Files.Write.Commits.{SameFiles, Puts}
use falken_core.Files.Write.{write_policy_request, default_operation, is_overwrite}

pub answer_split :
    {A B : Type 0} (P : B → Type 0) (x : Rules.Result A) (f : Rules.Error → B) (g : A → B)
    → ((e : Rules.Error) → P (f e))
    → ((a : A) → x ≡ Rules.ok a → P (g a))
    → P (elim x [ Rules.err e ↦ f e | Rules.ok a ↦ g a ])
answer_split P (Rules.err e) f g p q = p e
answer_split P (Rules.ok a) f g p q = q a refl

-- What os.Stat says of a path where a file is, or none.
abbrev pub IsSeen : Fallible SystemError FileInfo → Option FileInfo → Type 0
IsSeen seen none = (text : Text) × (seen ≡ err (not_exist text))
IsSeen seen (some info) = seen ≡ ok info

find_token-path :
    (key : Text) (tokens : List ReadToken) (token : ReadToken)
    → find_token key tokens ≡ some token
    → token.path ≡ key
unfolding find_token
find_token-path key [] token h = absurd (cc)
find_token-path key (t ∷ tokens) token h = elim (Bool-cases (text_eq t.path key)) [
  | inl same ↦ ground (arith, text_eq_iff t.path key)
  | inr other ↦ find_token-path key tokens token (ground arith)
]

-- A token that is registered for a path has that path, cleaned.
pub lookup-path :
    (registry : TokenRegistry) (path : Text) (token : ReadToken)
    → lookup registry path ≡ some token
    → token.path ≡ clean path
unfolding lookup
lookup-path registry path token h = find_token-path (clean path) registry.tokens token h

module _ {D : Type 0} (sys : FileSystem D) where
  -- What stands behind a change of a path: a registered token, where there is a file.
  abbrev pub Tokened : D → Service → WriteRequest → Text → Option FileInfo → D → Type 0
  Tokened d s request path none disk = Puts sys d request path none none disk
  Tokened d s request path (some info) disk =
      (token : ReadToken) × (lookup s.tokens path ≡ some token)
      × (token.path ≡ clean path)
      × Puts sys d request path (some info) (some token) disk

  -- The workspace has the request's path there, with a file of that information, or none.
  abbrev pub IsTarget : D → WriteRequest → Text → Option FileInfo → Type 0
  IsTarget d request path info =
      ((if is_overwrite (default_operation request.operation)
          then sys.resolve_existing d request.current_working_dir request.path
          else sys.resolve_for_create d request.current_working_dir request.path)
        ≡ ok path)
      × IsSeen (sys.stat d path) info

  -- The content has no secret.
  abbrev pub IsClean : WriteRequest → Type 0
  IsClean request = is_nil (scan_secret_content request.content) ≡ true

  -- What stands behind a write that changed the disk, or may have.
  abbrev pub IsGuarded : Service → WriteRequest → D → D → Type 0
  IsGuarded s request d disk =
      (path : Text) × (info : Option FileInfo) × (access : AccessResult) × IsTarget d request path
        info
      × ((runtime_evaluate_file s.policy (write_policy_request request path info)).0
          ≡ Rules.ok access)
      × (access.allowed ≡ true)
      × IsClean request
      × Tokened d s request path info disk

  module _ (reliable : IsReliable sys) where
    pub backup_keeps :
        (s : Service) (d : D) (path : Text) → SameFiles sys d (backup_existing_file sys s d path).1
    unfolding backup_existing_file
    backup_keeps s d path =
        let P = λ (r : Fallible Text Text × D). SameFiles sys d r.1 in
        if_both P (is_nil s.backup_root) _ _ (λ p o. refl)
          (fallible_split P (sys.snapshot d path) _ _ (λ e h p o. refl)
            (λ (bytes, info) h. reliable.backup_keeps d path bytes))
