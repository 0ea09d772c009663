-- ===== src/Conversation/Evidence/Revisions.antt =====
-- The revisions of command evidence as a boundary, internal/conversation/command_evidence.go.
use falken_core.Base.{
  ℕ, suc, ◌+◌, ◌^◌, ◌≤◌, ◌<◌, List, [], ◌∷◌, ◌++◌, append_assoc, append-nil, true, false, ◌≡◌, ◌⊎◌,
  inl, inr, refl, ap, sym, ◌∙◌, if◌then◌else◌, length, ltb, arith, All, Bool-cases,
}
use falken_core.Base.Int.{ℤ, pos, is_positive, pos_part, int64, int64_small}
use falken_core.Base.Text.{Text}
use falken_core.Conversation.Evidence.{
  CommandEvidenceRecord, CommandEvidenceState, max_revision, max_command_evidence_revision,
  assign_from, assign_missing_command_evidence_revisions, time_or, append_record,
  record_plan_baseline, record_workspace_mutation,
}

-- A record stands at or before a revision, or after it.
abbrev pub IsUpTo : ℕ → CommandEvidenceRecord → Type 0
IsUpTo m r = pos_part r.revision ≤ m

abbrev pub IsAfter : ℕ → CommandEvidenceRecord → Type 0
IsAfter m r = m < pos_part r.revision

le-max : (m : ℕ) (rs : List CommandEvidenceRecord) → m ≤ max_revision m rs
unfolding max_revision
le-max m [] = omega arith
le-max m (r ∷ rs) =
    ground (arith, le-max (if ltb m (pos_part r.revision) then pos_part r.revision else m) rs)

-- every record stands at or before the maximum
max-IsUpTo : (m : ℕ) (rs : List CommandEvidenceRecord) → All (IsUpTo (max_revision m rs)) rs
unfolding max_revision
max-IsUpTo m [] = tt
max-IsUpTo m (r ∷ rs) =
    let m' = if ltb m (pos_part r.revision) then pos_part r.revision else m in
    (ground (arith, le-max m' rs), max-IsUpTo m' rs)

max-append :
    (m : ℕ) (xs ys : List CommandEvidenceRecord)
    → max_revision m (xs ++ ys) ≡ max_revision (max_revision m xs) ys
unfolding max_revision
max-append m [] ys = refl
max-append m (x ∷ xs) ys =
    max-append (if ltb m (pos_part x.revision) then pos_part x.revision else m) xs ys

-- Records appended one after another.
unfoldable pub append_records :
    Text → List CommandEvidenceRecord → CommandEvidenceState → CommandEvidenceState
append_records now [] state = state
append_records now (r ∷ rs) state = append_records now rs (append_record now r state)

-- The record that is appended at a maximum.
abbrev stamped : Text → ℕ → CommandEvidenceRecord → CommandEvidenceRecord
stamped now m r = record r { revision = int64 (m + 1); recorded_at = time_or now r.recorded_at }

max_one :
    (m : ℕ) (r : CommandEvidenceRecord) → r.revision ≡ pos (m + 1) → max_revision m (r ∷ []) ≡ m + 1
unfolding max_revision
max_one m r h = rw h (ground arith)

module _ (now : Text) where
  max-append_record :
      (r : CommandEvidenceRecord) (state : CommandEvidenceState)
      → max_command_evidence_revision state + 1 < 2 ^ 63
      → max_command_evidence_revision (append_record now r state)
        ≡ max_command_evidence_revision state + 1
  max-append_record r state h =
      let m = max_command_evidence_revision state in
      unfold max_command_evidence_revision append_record in
      max-append 0 state.records (stamped now m r ∷ [])
      ∙ max_one m (stamped now m r) (int64_small (m + 1) h)

  -- Behind any state whose revisions leave room, each record appended stands after all that were
  -- there, and none that was there is changed.
  appended-IsAfter :
      (rs : List CommandEvidenceRecord) (state : CommandEvidenceState) (b : ℕ)
      → b ≤ max_command_evidence_revision state
      → max_command_evidence_revision state + length rs < 2 ^ 63
      → (new : List CommandEvidenceRecord) × ((append_records now rs state).records
          ≡ state.records ++ new)
        × (length new ≡ length rs)
        × All (IsAfter b) new
  unfolding append_records
  appended-IsAfter [] state b l h = ([], sym (append-nil state.records), refl, tt)
  appended-IsAfter (r ∷ rs) state b l h =
      let m = max_command_evidence_revision state in
      let next = max-append_record r state (omega arith) in
      let (new, e, n, after) =
        appended-IsAfter rs (append_record now r state) b (omega (arith, next))
          (omega (arith, next)) in
      (
        stamped now m r ∷ new,
        e ∙ append_record-append r state new,
        ap suc n,
        (rw (int64_small (m + 1) (omega arith)) (omega arith), after),
      )
    where
      append_record-append :
          (r : CommandEvidenceRecord) (state : CommandEvidenceState)
          (new : List CommandEvidenceRecord)
          → (append_record now r state).records ++ new
            ≡ state.records ++ (stamped now (max_command_evidence_revision state) r ∷ new)
      append_record-append r state new =
          unfold append_record in
          append_assoc state.records (stamped now (max_command_evidence_revision state) r ∷ []) new

-- A revision that was there stays, and one that was missing is given, past `m` and past each that was
-- given before it.
abbrev pub IsAssigned : ℕ → List CommandEvidenceRecord → List CommandEvidenceRecord → Type 0
IsAssigned m [] [] = Unit
IsAssigned m [] (s ∷ ss) = ⊥
IsAssigned m (r ∷ rs) [] = ⊥
IsAssigned m (r ∷ rs) (s ∷ ss) =
    ((is_positive r.revision ≡ true) × (s ≡ r) × IsAssigned m rs ss)
    ⊎ ((is_positive r.revision ≡ false)
        × (m < pos_part s.revision)
        × (s ≡ record r { revision = s.revision })
        × IsAssigned (pos_part s.revision) rs ss)

-- the same for the loop, from the next revision
assign_from-IsAssigned :
    (m next : ℕ) (rs : List CommandEvidenceRecord)
    → m < next
    → next + length rs < 2 ^ 63
    → IsAssigned m rs (assign_from next rs)
unfolding assign_from
assign_from-IsAssigned m next [] l h = tt
assign_from-IsAssigned m next (r ∷ rs) l h = elim (Bool-cases (is_positive r.revision)) [
  | inl given ↦ rw given (inl (refl, refl, assign_from-IsAssigned m next rs l (omega arith)))
  | inr missing ↦
      rw (missing, int64_small next (omega arith))
        (inr (refl, l, refl, assign_from-IsAssigned next (next + 1) rs (omega arith) (omega arith)))
]

-- Assigning the missing revisions gives each record without one a revision past all that were there and
-- past those given before it, and changes nothing else, neither of the records nor of the state, if the
-- numbers do not run out.
pub assign_missing_exact :
    (state : CommandEvidenceState)
    → max_command_evidence_revision state + 1 + length state.records < 2 ^ 63
    → (records : List CommandEvidenceRecord) × (assign_missing_command_evidence_revisions state
        ≡ record state { records = records })
      × IsAssigned (max_command_evidence_revision state) state.records records
unfolding assign_missing_command_evidence_revisions
assign_missing_exact state h =
    let m = max_command_evidence_revision state in
    (
      assign_from (m + 1) state.records,
      refl,
      assign_from-IsAssigned m (m + 1) state.records (omega arith) (omega arith),
    )

-- A boundary: the revision `b` parts the records of a state from those that are appended later.
abbrev pub IsBoundary : Text → CommandEvidenceState → ℤ → List CommandEvidenceRecord → Type 0
IsBoundary now state bound rs =
    (b : ℕ) × (bound ≡ pos b)
    × All (IsUpTo b) state.records
    × ((new : List CommandEvidenceRecord) × ((append_records now rs state).records
          ≡ state.records ++ new)
        × (length new ≡ length rs)
        × All (IsAfter b) new)

boundary :
    (now : Text) (rs : List CommandEvidenceRecord) (state : CommandEvidenceState)
    → max_command_evidence_revision state + length rs < 2 ^ 63
    → IsBoundary now state (pos (max_command_evidence_revision state)) rs
boundary now rs state h =
    let b = max_command_evidence_revision state in
    (
      b,
      refl,
      unfold max_command_evidence_revision in max-IsUpTo 0 state.records,
      appended-IsAfter now rs state b (omega arith) h,
    )

-- The baseline of a committed plan parts the evidence: every record of before stands at or before
-- it, and every command recorded later, however many as long as the revisions fit an int64, stands
-- after it.
pub plan_baseline-IsBoundary :
    (now : Text) (rs : List CommandEvidenceRecord) (state : CommandEvidenceState)
    → max_command_evidence_revision (record_plan_baseline state) + length rs < 2 ^ 63
    → IsBoundary now
        (record_plan_baseline state)
        (record_plan_baseline state).plan_baseline_revision
        rs
plan_baseline-IsBoundary now rs state h =
    let b = boundary now rs (record_plan_baseline state) h in
    unfold record_plan_baseline max_command_evidence_revision in b

-- The revision that a workspace mutation records parts the evidence too: every record of before
-- stands at or before it, and every command recorded later, as long as the revisions fit an int64,
-- stands after it.
pub mutation-IsBoundary :
    (now tool_name recorded_at : Text) (rs : List CommandEvidenceRecord)
    (state : CommandEvidenceState)
    → max_command_evidence_revision (record_workspace_mutation now tool_name recorded_at state)
        + length rs
      < 2 ^ 63
    → IsBoundary now
        (record_workspace_mutation now tool_name recorded_at state)
        (record_workspace_mutation now tool_name recorded_at state).last_workspace_mutation_revision
        rs
mutation-IsBoundary now tool_name recorded_at rs state h =
    let b = boundary now rs (record_workspace_mutation now tool_name recorded_at state) h in
    unfold record_workspace_mutation max_command_evidence_revision in b
