-- ===== src/Policy/Project.antt =====
-- Whether an approval for the project is found again, internal/policy/policy.go.
use falken_core.Base.{
  ℕ, List, [], ◌∷◌, ◌++◌, Bool, true, false, ◌≡◌, ◌≢◌, inl, inr, refl, ◌∙◌, arith, any,
}
use falken_core.Base.Text.{Text, has_key, replace_char, trim_right_char}
use falken_core.Base.Text.Laws.{text_eq_refl}
use falken_core.Base.Text.Split.{Lacks}
use falken_core.Path.{clean}
use falken_core.Path.Idempotent.{clean-clean}
use falken_core.Path.Trailing.{trim-clean, clean-ne-nil}
use falken_core.Policy.Rules.{
  project, project_approval, file, exact, FileAccessMode, FileRule, FileRequest, ok, Engine,
}
use falken_core.Policy.Match.{
  normalize_file_path, normalize_file_match_path, file_approval_key, matches_file_rule,
  matches_file_path,
}
use falken_core.Policy.Engine.{with_scope, apply_file_approval, evaluate_file}

replace-Lacks : (c d : ℕ) (s : Text) → Lacks c s → replace_char c d s ≡ s
unfolding replace_char
replace-Lacks c d [] h = refl
replace-Lacks c d (b ∷ s) h = ground (arith, replace-Lacks c d s h.1)

-- Of a path whose cleaned form has no backslash, the form that rules are matched by is the cleaned
-- form, or empty for the root.
match_path-clean :
    (path : Text)
    → Lacks b'\\' (clean path)
    → path ≢ []
    → normalize_file_match_path path ≡ trim_right_char b'/' (clean path)
unfolding normalize_file_match_path
match_path-clean [] h n = absurd (n refl)
match_path-clean (c ∷ s) h n = rw (replace-Lacks b'\\' b'/' (clean (c ∷ s)) h)

match_path-nil : normalize_file_match_path [] ≡ []
unfolding normalize_file_match_path
match_path-nil = refl

-- The form that rules are matched by is not changed by taking it again.
match_path_stable :
    (path : Text)
    → Lacks b'\\' (clean path)
    → normalize_file_match_path (normalize_file_match_path path) ≡ normalize_file_match_path path
match_path_stable [] h = rw (match_path-nil, match_path-nil)
match_path_stable (c ∷ s) h = elim (trim-clean (c ∷ s)) [
  | inl whole ↦
      let q = clean (c ∷ s) in
      let first = match_path-clean (c ∷ s) h (cc) ∙ whole in
      let again = match_path-clean q (rw clean-clean h) (clean-ne-nil (c ∷ s)) in
      cc (first, again, whole, clean-clean (c ∷ s))
  | inr root ↦
      let first : normalize_file_match_path (c ∷ s) ≡ [] =
        match_path-clean (c ∷ s) h (cc) ∙ (rw root (unfold trim_right_char in refl)) in
      rw (first, match_path-nil)
]

any-append_last {ℓ} :
    {A : Type ℓ} (p : A → Bool) (xs : List A) (x : A) → p x ≡ true → any p (xs ++ (x ∷ [])) ≡ true
any-append_last p [] x h = rw h
any-append_last p (y ∷ xs) x h = ground (arith, any-append_last p xs x h)

-- The rule that a project approval adds.
abbrev approved_rule : Text → FileAccessMode → FileRule
approved_rule path mode = record { path = path; match = exact; modes = mode ∷ [] }

approved_rule_matches :
    (rules : List FileRule) (path : Text) (mode : FileAccessMode)
    → Lacks b'\\' (clean path)
    → matches_file_rule (rules ++ (approved_rule path mode ∷ [])) path mode ≡ true
unfolding matches_file_rule matches_file_path
approved_rule_matches rules path mode h =
    any-append_last _ rules (approved_rule path mode)
      (rw (match_path_stable path h, text_eq_refl, text_eq_refl))

module _ (e : Engine) (request : FileRequest) where
  -- After a project approval of a file that no blocked rule matches and that the session does not
  -- approve, and whose cleaned path has no backslash, the same request passes without asking, by a
  -- project approval.
  pub project_file :
      matches_file_rule e.config.blocked_files (normalize_file_path request.path) request.mode
        ≡ false
      → has_key
          (file_approval_key (normalize_file_path request.path) request.mode)
          e.approvals.files
        ≡ false
      → Lacks b'\\' (clean (normalize_file_path request.path))
      → (evaluate_file
          (apply_file_approval e (normalize_file_path request.path) request.mode project).1
          request).0
        ≡ ok (with_scope file true project_approval project)
  unfolding evaluate_file apply_file_approval
  project_file b k h = ground (
    arith,
    approved_rule_matches e.config.project_approved_files (normalize_file_path request.path)
        request.mode h,
  )
