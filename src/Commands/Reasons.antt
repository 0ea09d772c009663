-- ===== src/Commands/Reasons.antt =====
-- What a detection reports agrees with its reasons, internal/policy/commands/shellwrite.go.
use falken_core.Base.{
  ℕ, zero, suc, List, [], ◌∷◌, ◌++◌, Bool, true, false, not, ◌||◌, Option, none, some, ◌≡◌, ◌≢◌,
  refl, arith, any, if◌then◌else◌, map,
}
use falken_core.Base.Text.{Text}
use falken_core.Commands.Syntax.{
  WordParts, Node, stmt, call_expr, other_node, Parsed, parsed, parse_failed,
  has_shell_write_redirect, nested_static_shell_commands,
}
use falken_core.Commands.Tee.{is_tee_write}
use falken_core.Commands.Detect.{
  ReasonCode, parse_error, shell_write_redirection, shell_write_tee, Detail, Reason, Detection,
  nothing, add_reason, add_nested, add_all, visit, walk, detect_in, detect, as_nested,
}

unfoldable pub is_write : Reason → Bool
is_write reason = elim reason.code [ parse_error ↦ false | _ ↦ true ]

unfoldable pub is_some {ℓ} : {A : Type ℓ} → Option A → Bool
is_some none = false
is_some (some a) = true

any-append {ℓ} :
    {A : Type ℓ} (p : A → Bool) (xs ys : List A) → any p (xs ++ ys) ≡ (any p xs || any p ys)
any-append p [] ys = refl
any-append p (x ∷ xs) ys = ground (arith, any-append p xs ys)

any-write_nested :
    (reasons : List Reason) → any is_write (map as_nested reasons) ≡ any is_write reasons
unfolding is_write
any-write_nested [] = refl
any-write_nested (r ∷ reasons) = ground (arith, any-write_nested reasons)

not-write_nested :
    (reasons : List Reason)
    → any (λ r. not (is_write r)) (map as_nested reasons) ≡ any (λ r. not (is_write r)) reasons
unfolding is_write
not-write_nested [] = refl
not-write_nested (r ∷ reasons) = ground (arith, not-write_nested reasons)

-- A detection whose flag and error agree with its reasons.
pub record IsExplained (d : Detection) : Type 0 where
  pub by_write : d.found ≡ any is_write d.reasons
  pub by_error : is_some d.first_err ≡ any (λ r. not (is_write r)) d.reasons

add_nested-IsExplained :
    (d inner : Detection) → IsExplained d → IsExplained inner → IsExplained (add_nested d inner)
unfolding add_nested is_some
add_nested-IsExplained d inner h k = record {
  by_write = ground (
    arith,
    any-append is_write d.reasons (map as_nested inner.reasons),
    any-write_nested inner.reasons,
  );
  by_error = ground (
    arith,
    any-append (λ r. not (is_write r)) d.reasons (map as_nested inner.reasons),
    not-write_nested inner.reasons,
  );
}

add_reason-IsExplained :
    (d : Detection) (code : ReasonCode) (detail : Detail)
    → code ≢ parse_error
    → IsExplained d
    → IsExplained (add_reason d code detail)
unfolding is_write
add_reason-IsExplained d code detail n h = record {
  by_write =
      ground (arith, any-append is_write d.reasons (record { code = code; detail = detail } ∷ []));
  by_error = ground (
    arith,
    any-append (λ r. not (is_write r)) d.reasons (record { code = code; detail = detail } ∷ []),
  );
}

if-IsExplained :
    (b : Bool) (x y : Detection) → IsExplained x → IsExplained y → IsExplained (if b then x else y)
if-IsExplained true x y h k = h
if-IsExplained false x y h k = k

module _ (parse : Text → Parsed) (print : Option WordParts → Text) where
  Deeper : Option (Text → Detection) → Type 0
  Deeper none = Unit
  Deeper (some inner) = (command : Text) → IsExplained (inner command)

  add_all-IsExplained :
      (deeper : Option (Text → Detection)) (d : Detection) (commands : List Text)
      → Deeper deeper
      → IsExplained d
      → IsExplained (add_all parse print deeper d commands)
  unfolding add_all Deeper
  add_all-IsExplained none d commands g h = h
  add_all-IsExplained (some inner) d [] g h = h
  add_all-IsExplained (some inner) d (command ∷ commands) g h =
      add_all-IsExplained (some inner) (add_nested d (inner command)) commands g
        (add_nested-IsExplained d (inner command) h (g command))

  visit-IsExplained :
      (deeper : Option (Text → Detection)) (d : Detection) (node : Node)
      → Deeper deeper
      → IsExplained d
      → IsExplained (visit parse print deeper d node)
  unfolding visit
  visit-IsExplained deeper d (stmt redirs) g h =
      if-IsExplained (has_shell_write_redirect redirs) _ d
        (add_reason-IsExplained d shell_write_redirection _ (cc) h) h
  visit-IsExplained deeper d (call_expr words) g h =
      add_all-IsExplained deeper _ (nested_static_shell_commands words) g (
        if-IsExplained (is_tee_write (map print words)) _ d
          (add_reason-IsExplained d shell_write_tee _ (cc) h) h)
  visit-IsExplained deeper d other_node g h = h

  walk-IsExplained :
      (deeper : Option (Text → Detection)) (d : Detection) (nodes : List Node)
      → Deeper deeper
      → IsExplained d
      → IsExplained (walk parse print deeper d nodes)
  unfolding walk
  walk-IsExplained deeper d [] g h = h
  walk-IsExplained deeper d (node ∷ nodes) g h =
      walk-IsExplained deeper (visit parse print deeper d node) nodes g
        (visit-IsExplained deeper d node g h)

  detect_in-IsExplained :
      (deeper : Option (Text → Detection)) (p : Parsed)
      → Deeper deeper
      → IsExplained (detect_in parse print deeper p)
  unfolding detect_in is_write is_some
  detect_in-IsExplained deeper (parse_failed message) g = ground arith
  detect_in-IsExplained deeper (parsed nodes) g =
      walk-IsExplained deeper nothing nodes g (ground arith)

  -- At every depth, a command is reported to write a file exactly if one of the reasons is a write,
  -- and an error is reported exactly if one of the reasons is a parse error, nested reasons included.
  pub detect-IsExplained :
      (left : ℕ) (command : Text) → IsExplained (detect parse print left command)
  unfolding detect Deeper
  detect-IsExplained zero command = detect_in-IsExplained none (parse command) tt
  detect-IsExplained (suc left) command =
      detect_in-IsExplained (some (detect parse print left)) (parse command)
        (detect-IsExplained left)

  -- What a node of a parsed command writes: a redirection, a call of `tee`, or a nested command
  -- that is found to write, where there is a round left.
  unfoldable pub node_writes : Option (Text → Detection) → Node → Bool
  node_writes deeper (stmt redirs) = has_shell_write_redirect redirs
  node_writes deeper (call_expr words) = is_tee_write (map print words) || elim deeper [
    | none ↦ false
    | some inner ↦ any (λ command. (inner command).found) (nested_static_shell_commands words)
  ]
  node_writes deeper other_node = false

  add_all-found :
      (inner : Text → Detection) (d : Detection) (commands : List Text)
      → (add_all parse print (some inner) d commands).found
        ≡ (d.found || any (λ command. (inner command).found) commands)
  unfolding add_all add_nested
  add_all-found inner d [] = ground arith
  add_all-found inner d (command ∷ commands) =
      ground (arith, add_all-found inner (add_nested d (inner command)) commands)

  visit-found :
      (deeper : Option (Text → Detection)) (d : Detection) (node : Node)
      → (visit parse print deeper d node).found ≡ (d.found || node_writes deeper node)
  unfolding visit node_writes
  visit-found deeper d (stmt redirs) = ground arith
  visit-found none d (call_expr words) = unfold add_all in ground arith
  visit-found (some inner) d (call_expr words) = rw add_all-found (ground arith)
  visit-found deeper d other_node = ground arith

  walk-found :
      (deeper : Option (Text → Detection)) (d : Detection) (nodes : List Node)
      → (walk parse print deeper d nodes).found ≡ (d.found || any (node_writes deeper) nodes)
  unfolding walk
  walk-found deeper d [] = ground arith
  walk-found deeper d (node ∷ nodes) =
      ground (
        arith,
        walk-found deeper (visit parse print deeper d node) nodes,
        visit-found deeper d node,
      )

  -- With a round of nesting left, a command that parses is reported to write a file exactly if one of
  -- its nodes is found to.
  pub detect-found :
      (left : ℕ) (command : Text) (nodes : List Node)
      → parse command ≡ parsed nodes
      → (detect parse print (suc left) command).found
        ≡ any (node_writes (some (detect parse print left))) nodes
  unfolding detect detect_in
  detect-found left command nodes h =
      rw h (walk-found (some (detect parse print left)) nothing nodes)
