-- ===== src/Files/Tokens.antt =====
-- Read tokens, internal/files/tokens.go.
use falken_core.Base.{
  ℕ, [], ◌∷◌, List, Bool, true, false, ◌&&◌, Option, none, some, if◌then◌else◌, ◌==◌, is_nil,
}
use falken_core.Base.Text.{Text, codes, text_eq}
use falken_core.Path.{clean}
use falken_core.Files.Fallible.{Fallible, ok, and_then}
use falken_core.Files.Types.{ReadToken}
use falken_core.Files.System.{FileSystem, FileInfo, SystemError}

-- The map from paths to tokens is the list of its tokens, with one for each path.
pub record TokenRegistry : Type 0 where
  pub scope_id : Text
  pub tokens : List ReadToken

pub record TokenValidation : Type 0 where
  pub found : Bool
  pub matches : Bool
  pub token : Option ReadToken
  pub current : Option ReadToken
  pub reason : Text

abbrev pub new_token_registry : Text → TokenRegistry
new_token_registry scope_id = record {
  scope_id = if is_nil scope_id then codes "default" else scope_id;
  tokens = [];
}

unfoldable pub without_path : Text → List ReadToken → List ReadToken
unfolding text_eq
without_path path [] = []
without_path path (token ∷ tokens) =
    let rest = without_path path tokens in if text_eq token.path path then rest else token ∷ rest

unfoldable pub find_token : Text → List ReadToken → Option ReadToken
unfolding text_eq
find_token path [] = none
find_token path (token ∷ tokens) =
    let rest = find_token path tokens in if text_eq token.path path then some token else rest

unfoldable pub record_token : TokenRegistry → ReadToken → TokenRegistry
unfolding without_path
record_token registry token = record registry {
  tokens = token ∷ without_path token.path registry.tokens;
}

unfoldable pub forget : TokenRegistry → Text → TokenRegistry
unfolding without_path clean
forget registry path = record registry { tokens = without_path (clean path) registry.tokens }

unfoldable pub lookup : TokenRegistry → Text → Option ReadToken
unfolding find_token clean
lookup registry path = find_token (clean path) registry.tokens

unfoldable pub same_file_version : ReadToken → ReadToken → Bool
unfolding text_eq
same_file_version a b =
    text_eq a.path b.path
    && text_eq a.content_hash b.content_hash
    && a.size == b.size
    && a.mod_time == b.mod_time
    && a.device == b.device
    && a.inode == b.inode

module _ {D : Type 0} (sys : FileSystem D) where
  -- A time that is zero, none, stands for now.
  unfoldable pub token_for_snapshot : D → Text → Text → Text → FileInfo → Option ℕ → ReadToken
  unfolding clean
  token_for_snapshot d scope_id path bytes info issued_at =
      let clean_path = clean path in
      let content_hash = sys.sha256_hex bytes in
      record {
        id =
            sys.token_id scope_id clean_path content_hash info.size info.mod_time info.device
              info.inode;
        scope_id = scope_id;
        path = clean_path;
        content_hash = content_hash;
        size = info.size;
        mod_time = info.mod_time;
        device = info.device;
        inode = info.inode;
        issued_at = elim issued_at [ none ↦ sys.now d | some time ↦ time ];
      }

  unfoldable pub token_for_file : D → Text → Text → Option ℕ → Fallible SystemError ReadToken
  unfolding clean token_for_snapshot
  token_for_file d scope_id path issued_at =
      and_then (sys.snapshot d (clean path))
        (λ (bytes, info). ok (token_for_snapshot d scope_id (clean path) bytes info issued_at))

  -- The comparison of a registered token, if there is one, with the file.
  unfoldable pub validate_token : D → Option ReadToken → Fallible SystemError TokenValidation
  unfolding token_for_file same_file_version
  validate_token d none = ok (record {
    found = false;
    matches = false;
    token = none;
    current = none;
    reason = codes "no read token is registered for path";
  })
  validate_token d (some token) =
      and_then (token_for_file d token.scope_id token.path none) (λ current.
        let matches = same_file_version token current in
        ok (record {
          found = true;
          matches = matches;
          token = some token;
          current = some current;
          reason =
              if matches
              then codes "current file matches read token"
              else codes "current file differs from read token";
        }))

  unfoldable pub validate_current : D → TokenRegistry → Text → Fallible SystemError TokenValidation
  unfolding lookup validate_token
  validate_current d registry path = validate_token d (lookup registry path)
