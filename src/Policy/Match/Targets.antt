-- ===== src/Policy/Match/Targets.antt =====
-- What the matches of internal/policy/policy.go accept.
use falken_core.Base.{
  ℕ, ◌≤◌, List, [], ◌∷◌, ◌++◌, Bool, true, false, not, ◌&&◌, ◌||◌, ◌≡◌, ◌≢◌, ◌⊎◌, ◌↔◌, inl, inr,
  refl, arith, Bool-cases, if◌then◌else◌, is_nil, any, append_assoc, ◌∙◌, subst, sym,
}
use falken_core.Base.Int.{ℤ, pos, negsuc, int_eq}
use falken_core.Base.Text.{Text, text_eq, has_prefix, has_suffix, trim_right_char}
use falken_core.Base.Text.Laws.{
  text_eq_iff, has_prefix_sound, has_prefix-append, has_suffix_sound, has_suffix-append,
}
use falken_core.Path.{slash}
use falken_core.Policy.Rules.{suffix}
use falken_core.Policy.Match.{
  file_prefix_match, host_kind_match, network_rule_port_matches, port_out_of_range,
}

is_nil-false : (s : Text) → s ≢ [] → is_nil s ≡ false
is_nil-false [] h = absurd (h refl)
is_nil-false (c ∷ s) h = refl

trim-nil : (c : ℕ) (s : Text) → trim_right_char c s ≢ [] → s ≢ []
unfolding trim_right_char
trim-nil c [] h e = h refl
trim-nil c (d ∷ s) h e = cc

-- An equation of texts, or a fact that a text of the shape `f u` is.
equal_or :
    (s t : Text) (f : Text → Text) (b : Bool)
    → (b ≡ true → (u : Text) × (t ≡ f u))
    → ((u : Text) → t ≡ f u → b ≡ true)
    → ((text_eq t s || b) ≡ true) ↔ ((t ≡ s) ⊎ ((u : Text) × (t ≡ f u)))
equal_or s t f b sound complete = (to, from)
  where
    to : (text_eq t s || b) ≡ true → (t ≡ s) ⊎ ((u : Text) × (t ≡ f u))
    to h = elim (Bool-cases (text_eq t s)) [
      | inl same ↦ inl ((text_eq_iff t s).0 same)
      | inr differ ↦ inr (sound (ground arith))
    ]

    from : (t ≡ s) ⊎ ((u : Text) × (t ≡ f u)) → (text_eq t s || b) ≡ true
    from (inl same) = rw ((text_eq_iff t s).1 same)
    from (inr (u, e)) = let h = complete u e in ground arith

abbrev pub Listed : ℤ → List ℤ → Type 0
Listed port [] = ⊥
Listed port (p ∷ ports) = (p ≡ port) ⊎ Listed port ports

int_eq_iff : (a b : ℤ) → (int_eq a b ≡ true) ↔ (a ≡ b)
int_eq_iff (pos a) (pos b) = ground arith
int_eq_iff (pos a) (negsuc b) = ground arith
int_eq_iff (negsuc a) (pos b) = ground arith
int_eq_iff (negsuc a) (negsuc b) = ground arith

abbrev accepts : ℤ → ℤ → Bool
accepts port allowed = not (port_out_of_range allowed) && int_eq allowed port

or_true : (a b : Bool) → (a || b) ≡ true → (a ≡ true) ⊎ (b ≡ true)
or_true true b h = inl refl
or_true false b h = inr h

second : (b c : Bool) → b ≡ false → c ≡ true → (if b then false else c) ≡ true
second b c h k = ground arith

accepts_sound :
    (port p : ℤ)
    → accepts port p ≡ true
    → (n : ℕ) × (port ≡ pos n) × (1 ≤ n) × (n ≤ 65535) × (p ≡ port)
unfolding port_out_of_range
accepts_sound port (pos n) h =
    let e = (int_eq_iff (pos n) port).0 (ground arith) in (n, cc e, ground arith, ground arith, e)
accepts_sound port (negsuc n) h = absurd (ground arith)

any-accepts :
    (ports : List ℤ) (port : ℤ)
    → any (accepts port) ports ≡ true
    → (n : ℕ) × (port ≡ pos n) × (1 ≤ n) × (n ≤ 65535) × Listed port ports
any-accepts [] port h = absurd (cc)
any-accepts (p ∷ ports) port h = elim (or_true (accepts port p) (any (accepts port) ports) h) [
  | inl here ↦ let (n, e, l, u, m) = accepts_sound port p here in (n, e, l, u, inl m)
  | inr there ↦ let (n, e, l, u, m) = any-accepts ports port there in (n, e, l, u, inr m)
]

accepts_self : (n : ℕ) → 1 ≤ n → n ≤ 65535 → accepts (pos n) (pos n) ≡ true
unfolding port_out_of_range
accepts_self n l u = ground arith

accepts-any :
    (ports : List ℤ) (n : ℕ)
    → 1 ≤ n
    → n ≤ 65535
    → Listed (pos n) ports
    → any (accepts (pos n)) ports ≡ true
accepts-any [] n l u m = elim m [ ]
accepts-any (p ∷ ports) n l u (inl e) = rw (e, accepts_self n l u)
accepts-any (p ∷ ports) n l u (inr m) = let rest = accepts-any ports n l u m in ground (arith, rest)

-- A prefix rule for a directory other than the root matches the directory itself and what lies below
-- it, and no other path whose text happens to begin with the directory's.
pub file_prefix_match_exact :
    (pattern target : Text)
    → trim_right_char b'/' pattern ≢ []
    → (file_prefix_match pattern target ≡ true) ↔ (
        (target ≡ trim_right_char b'/' pattern)
        ⊎ ((below : Text) × (target ≡ trim_right_char b'/' pattern ++ (slash ++ below))))
unfolding file_prefix_match
file_prefix_match_exact pattern target h =
    let trimmed = trim_right_char b'/' pattern in
    rw (is_nil-false pattern (trim-nil b'/' pattern h), is_nil-false trimmed h)
      (equal_or trimmed target (λ below. trimmed ++ (slash ++ below))
        (has_prefix target (trimmed ++ slash))
        (λ p.
          let (u, e) = has_prefix_sound target (trimmed ++ slash) p in
          (u, e ∙ append_assoc trimmed slash u))
        (λ u e. rw (e, ← append_assoc trimmed slash u) (has_prefix-append (trimmed ++ slash) u)))

-- A suffix rule that does not begin with a dot matches the host itself and the names below it at the
-- boundary of a label, and no other host whose text happens to end in it.
pub host_suffix_exact :
    (pattern target : Text)
    → has_prefix pattern (b'.' ∷ []) ≡ false
    → (host_kind_match suffix pattern target ≡ true)
      ↔ ((target ≡ pattern) ⊎ ((label : Text) × (target ≡ label ++ (b'.' ∷ pattern))))
unfolding host_kind_match
host_suffix_exact pattern target h = rw h (
    equal_or pattern target (λ label. label ++ (b'.' ∷ pattern))
      (has_suffix target (b'.' ∷ pattern)) (has_suffix_sound target (b'.' ∷ pattern))
      (λ u e. rw e (has_suffix-append u (b'.' ∷ pattern))))

-- A rule with ports matches exactly the ports that it lists, from 1 to 65535; one without matches all.
pub port_match_exact :
    (ports : List ℤ) (port : ℤ)
    → (network_rule_port_matches ports port ≡ true)
      ↔ ((ports ≡ []) ⊎ ((n : ℕ) × (port ≡ pos n) × (1 ≤ n) × (n ≤ 65535) × Listed port ports))
unfolding network_rule_port_matches
port_match_exact [] port = ((λ _. inl refl), λ _. refl)
port_match_exact (p ∷ ports) port = (to, from)
  where
    to :
        (if int_eq port (pos 0) then false else any (accepts port) (p ∷ ports)) ≡ true
        → ((p ∷ ports) ≡ [])
          ⊎ ((n : ℕ) × (port ≡ pos n) × (1 ≤ n) × (n ≤ 65535) × Listed port (p ∷ ports))
    to h = elim (Bool-cases (int_eq port (pos 0))) [
      | inl z ↦ absurd (ground arith)
      | inr z ↦ inr (any-accepts (p ∷ ports) port (rw z at h))
    ]

    from :
        ((p ∷ ports) ≡ [])
          ⊎ ((n : ℕ) × (port ≡ pos n) × (1 ≤ n) × (n ≤ 65535) × Listed port (p ∷ ports))
        → (if int_eq port (pos 0) then false else any (accepts port) (p ∷ ports)) ≡ true
    from (inl e) = absurd (cc)
    from (inr (n, e, l, u, m)) =
        subst (λ q. (if int_eq q (pos 0) then false else any (accepts q) (p ∷ ports)) ≡ true)
          (sym e)
          (second (int_eq (pos n) (pos 0)) (any (accepts (pos n)) (p ∷ ports)) (ground arith)
            (accepts-any (p ∷ ports) n l u (subst (λ q. Listed q (p ∷ ports)) e m)))
