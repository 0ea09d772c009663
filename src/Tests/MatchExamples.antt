-- ===== src/Tests/MatchExamples.antt =====
-- Keys and rules of internal/policy/policy.go at concrete targets.
use falken_core.Base.{[], ◌∷◌, true, ◌≡◌, ◌↔◌, ◌⊎◌, ℕ, ◌≤◌}
use falken_core.Base.Int.{pos}
use falken_core.Policy.Match.{network_rule_port_matches}
use falken_core.Policy.Match.Targets.{Listed, port_match_exact}

port_match_exact_example : (network_rule_port_matches (pos 80 ∷ pos 443 ∷ []) (pos 443) ≡ true) ↔ (
    ((pos 80 ∷ pos 443 ∷ []) ≡ [])
    ⊎ ((n : ℕ) × (pos 443 ≡ pos n)
        × (1 ≤ n)
        × (n ≤ 65535)
        × Listed (pos 443) (pos 80 ∷ pos 443 ∷ [])))
port_match_exact_example = port_match_exact (pos 80 ∷ pos 443 ∷ []) (pos 443)
