-- ===== src/Policy/History/Approvals.antt =====
-- Where the approvals of a session come from.
use falken_core.Base.{
  List, [], ◌∷◌, Bool, true, false, ◌||◌, Option, ◌≡◌, refl, sym, subst, ◌∙◌, any, is_nil, arith,
}
use falken_core.Base.Text.{Text, has_key, trim_space}
use falken_core.Policy.Rules.{
  session, session_approval, file, shell, network, FileRequest, ShellRequest, NetworkRequest, ok,
  Engine, Config, ApprovalHandler,
}
use falken_core.Policy.Match.{
  file_approval_key, network_approval_key, normalize_file_path, matches_file_rule,
  matches_shell_rule, normalize_network_host, matches_network_rule,
}
use falken_core.Policy.Engine.{
  new_engine, with_scope, set_project_approval_persister, replace_project_approvals,
  apply_file_approval, apply_shell_approval, apply_network_approval, evaluate_file, evaluate_shell,
  evaluate_network,
}
use falken_core.Policy.History.Blocked.{run-SameRules}
use falken_core.Policy.History.{
  Event, file_answer, shell_answer, network_answer, step, run, approves_file, approves_shell,
  approves_network,
}

swap_or : (a b c : Bool) → (a || (b || c)) ≡ ((b || a) || c)
swap_or a b c = ground arith

or_false : (a : Bool) → (a || false) ≡ a
or_false a = ground arith

-- A set of approved keys that each event changes by what it approves.
module _ (holds : Engine → Bool) (approves : Event → Bool)
    (law : (e : Engine) (event : Event) → holds (step e event) ≡ (approves event || holds e)) where
  run_law :
      (e : Engine) (events : List Event) → holds (run e events) ≡ (any approves events || holds e)
  unfolding run
  run_law e [] = refl
  run_law e (event ∷ events) =
      run_law (step e event) events
      ∙ (rw (law e event) (swap_or (any approves events) (approves event) (holds e)))

module _ (key : Text) where
  step-files :
      (e : Engine) (event : Event)
      → has_key key (step e event).approvals.files
        ≡ (approves_file key event || has_key key e.approvals.files)
  unfolding step apply_file_approval apply_shell_approval apply_network_approval
      replace_project_approvals set_project_approval_persister has_key
  step-files e (file_answer path mode scope) = ground arith
  step-files e (shell_answer command scope) = ground arith
  step-files e (network_answer host port scope) = ground arith
  step-files e _ = refl

  step-shell :
      (e : Engine) (event : Event)
      → has_key key (step e event).approvals.shell
        ≡ (approves_shell key event || has_key key e.approvals.shell)
  unfolding step apply_file_approval apply_shell_approval apply_network_approval
      replace_project_approvals set_project_approval_persister has_key
  step-shell e (file_answer path mode scope) = ground arith
  step-shell e (shell_answer command scope) = ground arith
  step-shell e (network_answer host port scope) = ground arith
  step-shell e _ = refl

  step-network :
      (e : Engine) (event : Event)
      → has_key key (step e event).approvals.network
        ≡ (approves_network key event || has_key key e.approvals.network)
  unfolding step apply_file_approval apply_shell_approval apply_network_approval
      replace_project_approvals set_project_approval_persister has_key
  step-network e (file_answer path mode scope) = ground arith
  step-network e (shell_answer command scope) = ground arith
  step-network e (network_answer host port scope) = ground arith
  step-network e _ = refl

  -- After any history of a new engine, a key is approved for the session exactly if the handler
  -- gave the answer `session` for it, for files, for commands and for hosts alike.
  pub session_approvals_exact :
      (config : Config) (handler : Option ApprovalHandler) (events : List Event)
      → (has_key key (run (new_engine config handler) events).approvals.files
          ≡ any (approves_file key) events)
        × (has_key key (run (new_engine config handler) events).approvals.shell
            ≡ any (approves_shell key) events)
        × (has_key key (run (new_engine config handler) events).approvals.network
            ≡ any (approves_network key) events)
  unfolding new_engine has_key
  session_approvals_exact config handler events =
      let e = new_engine config handler in
      (
        run_law (λ e. has_key key e.approvals.files) (approves_file key) step-files e events
            ∙ or_false _,
        run_law (λ e. has_key key e.approvals.shell) (approves_shell key) step-shell e events
            ∙ or_false _,
        run_law (λ e. has_key key e.approvals.network) (approves_network key) step-network e events
            ∙ or_false _,
      )

allowed_file :
    (e : Engine) (request : FileRequest)
    → matches_file_rule e.config.blocked_files (normalize_file_path request.path) request.mode
      ≡ false
    → has_key (file_approval_key (normalize_file_path request.path) request.mode) e.approvals.files
      ≡ true
    → evaluate_file e request ≡ (ok (with_scope file true session_approval session), e)
unfolding evaluate_file
allowed_file e request h k = ground arith

allowed_shell :
    (e : Engine) (request : ShellRequest)
    → matches_shell_rule e.config.blocked_shell (trim_space request.command) ≡ false
    → has_key (trim_space request.command) e.approvals.shell ≡ true
    → evaluate_shell e request ≡ (ok (with_scope shell true session_approval session), e)
unfolding evaluate_shell
allowed_shell e request h k = ground arith

allowed_network :
    (e : Engine) (request : NetworkRequest)
    → is_nil (normalize_network_host request.host) ≡ false
    → matches_network_rule e.config.blocked_network
        (normalize_network_host request.host)
        request.port
      ≡ false
    → has_key
        (network_approval_key (normalize_network_host request.host) request.port)
        e.approvals.network
      ≡ true
    → evaluate_network e request ≡ (ok (with_scope network true session_approval session), e)
unfolding evaluate_network
allowed_network e request n h k = ground arith

module _ (e : Engine) (events : List Event) where
  -- Once the handler has answered `session` for a path and mode, every later request for that path
  -- and mode that no blocked rule matches is allowed without asking, whatever else happened, under
  -- whatever spelling cleans to that path.
  pub session_file :
      (request : FileRequest)
      → matches_file_rule e.config.blocked_files (normalize_file_path request.path) request.mode
        ≡ false
      → any
          (approves_file (file_approval_key (normalize_file_path request.path) request.mode))
          events
        ≡ true
      → evaluate_file (run e events) request
        ≡ (ok (with_scope file true session_approval session), run e events)
  session_file request h a =
      let key = file_approval_key (normalize_file_path request.path) request.mode in
      allowed_file (run e events) request
        (subst
          (λ rules. matches_file_rule rules (normalize_file_path request.path) request.mode ≡ false)
          (sym (run-SameRules e events).blocked_files) h)
        (rw (
          run_law (λ e. has_key key e.approvals.files) (approves_file key) (step-files key) e
              events,
          a,
        ))

  -- Once the handler has answered `session` for a command, every later request for it that no blocked
  -- rule matches is allowed without asking, also where an approval is forced or a rule requires one.
  pub session_command :
      (request : ShellRequest)
      → matches_shell_rule e.config.blocked_shell (trim_space request.command) ≡ false
      → any (approves_shell (trim_space request.command)) events ≡ true
      → evaluate_shell (run e events) request
        ≡ (ok (with_scope shell true session_approval session), run e events)
  session_command request h a =
      let key = trim_space request.command in
      allowed_shell (run e events) request
        (subst (λ rules. matches_shell_rule rules key ≡ false)
          (sym (run-SameRules e events).blocked_shell) h)
        (rw (
          run_law (λ e. has_key key e.approvals.shell) (approves_shell key) (step-shell key) e
              events,
          a,
        ))

  -- Once the handler has answered `session` for a host and port, every later request for them that no
  -- blocked rule matches is allowed without asking, if the host is not empty.
  pub session_host :
      (request : NetworkRequest)
      → is_nil (normalize_network_host request.host) ≡ false
      → matches_network_rule e.config.blocked_network
          (normalize_network_host request.host)
          request.port
        ≡ false
      → any
          (approves_network
            (network_approval_key (normalize_network_host request.host) request.port))
          events
        ≡ true
      → evaluate_network (run e events) request
        ≡ (ok (with_scope network true session_approval session), run e events)
  session_host request n h a =
      let key = network_approval_key (normalize_network_host request.host) request.port in
      allowed_network (run e events) request n
        (subst
          (λ rules.
            matches_network_rule rules (normalize_network_host request.host) request.port ≡ false)
          (sym (run-SameRules e events).blocked_network) h)
        (rw (
          run_law (λ e. has_key key e.approvals.network) (approves_network key) (step-network key) e
              events,
          a,
        ))
