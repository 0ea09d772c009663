-- ===== src/Conversation/Memory/Entries.antt =====
-- The lists of internal/conversation/memory.go as sets in first-seen order.
use falken_core.Base.{
  List, [], ◌∷◌, ◌++◌, Bool, false, not, ◌&&◌, ◌||◌, ◌≡◌, refl, ◌∙◌, arith, is_nil, any, All,
  All-append, Bool-cases, inl, inr,
}
use falken_core.Base.Text.{Text, text_eq, trim_space, has_key}
use falken_core.Base.Text.Laws.{trim_space_idem, text_eq_iff}
use falken_core.Conversation.Memory.{
  normalize_from, normalize_memory_list, without, merge_memory_list,
}

-- Trimmed values, none of them empty, none twice and none among those seen.
abbrev pub IsNormal : List Text → List Text → Type 0
IsNormal seen [] = Unit
IsNormal seen (v ∷ vs) =
    (trim_space v ≡ v) × (is_nil v ≡ false) × (has_key v seen ≡ false) × IsNormal (v ∷ seen) vs

normalize-IsNormal : (seen vs : List Text) → IsNormal seen (normalize_from seen vs)
unfolding normalize_from
normalize-IsNormal seen [] = tt
normalize-IsNormal seen (v ∷ vs) =
    let t = trim_space v in
    elim (Bool-cases (is_nil t || has_key t seen)) [
      | inl skip ↦ rw skip (normalize-IsNormal seen vs)
      | inr keep ↦
          rw keep (trim_space_idem v, ground arith, ground arith, normalize-IsNormal (t ∷ seen) vs)
    ]

normalize_again : (seen vs : List Text) → IsNormal seen vs → normalize_from seen vs ≡ vs
unfolding normalize_from
normalize_again seen [] h = refl
normalize_again seen (v ∷ vs) h = ground (arith, h.0, h.1, h.2, normalize_again (v ∷ seen) vs h.3)

-- A normalized list is trimmed, has no blank and no value twice, and is normalized to itself.
pub normalize_list-IsNormal :
    (vs : List Text)
    → IsNormal [] (normalize_memory_list vs)
      × (normalize_memory_list (normalize_memory_list vs) ≡ normalize_memory_list vs)
unfolding normalize_memory_list
normalize_list-IsNormal vs =
    (normalize-IsNormal [] vs, normalize_again [] (normalize_from [] vs) (normalize-IsNormal [] vs))

-- A value is written in a list up to blanks around it.
unfoldable pub written : Text → List Text → Bool
written k vs = any (λ v. text_eq (trim_space v) k) vs

has_key-normalize_from :
    (k : Text) (seen vs : List Text)
    → has_key k (normalize_from seen vs)
      ≡ (not (is_nil k) && (written k vs && not (has_key k seen)))
unfolding normalize_from written has_key
has_key-normalize_from k seen [] = ground arith
has_key-normalize_from k seen (v ∷ vs) =
    let t = trim_space v in
    ground (
      arith,
      text_eq_iff t k,
      has_key-normalize_from k seen vs,
      has_key-normalize_from k (t ∷ seen) vs,
    )

has_key-append :
    (k : Text) (xs ys : List Text) → has_key k (xs ++ ys) ≡ (has_key k xs || has_key k ys)
unfolding has_key
has_key-append k [] ys = refl
has_key-append k (x ∷ xs) ys = ground (arith, has_key-append k xs ys)

has_key-without :
    (k : Text) (removed vs : List Text)
    → has_key k (without removed vs) ≡ (has_key k vs && not (has_key k removed))
unfolding has_key without
has_key-without k removed [] = refl
has_key-without k removed (v ∷ vs) = ground (arith, text_eq_iff v k, has_key-without k removed vs)

-- Values that are their own trimmed form.
abbrev Trimmed : List Text → Type 0
Trimmed = All (λ v. trim_space v ≡ v)

normal-Trimmed : (seen vs : List Text) → IsNormal seen vs → Trimmed vs
normal-Trimmed seen [] h = tt
normal-Trimmed seen (v ∷ vs) h = (h.0, normal-Trimmed (v ∷ seen) vs h.3)

without-Trimmed : (removed vs : List Text) → Trimmed vs → Trimmed (without removed vs)
unfolding without
without-Trimmed removed [] h = tt
without-Trimmed removed (v ∷ vs) h = elim (Bool-cases (has_key v removed)) [
  | inl gone ↦ rw gone (without-Trimmed removed vs h.1)
  | inr kept ↦ rw kept (h.0, without-Trimmed removed vs h.1)
]

written-Trimmed : (k : Text) (vs : List Text) → Trimmed vs → written k vs ≡ has_key k vs
unfolding written has_key
written-Trimmed k [] h = refl
written-Trimmed k (v ∷ vs) h = ground (arith, h.0, written-Trimmed k vs h.1)

has_key-normalize :
    (k : Text) (vs : List Text)
    → has_key k (normalize_memory_list vs) ≡ (not (is_nil k) && written k vs)
unfolding normalize_memory_list has_key
has_key-normalize k vs = ground (arith, has_key-normalize_from k [] vs)

-- A merge holds exactly the values, up to blanks around them, that are written in the old list or
-- among the added ones, and that are not written among the removed ones, not even if they are added.
pub merge_exact :
    (k : Text) (existing add remove : List Text)
    → has_key k (merge_memory_list existing add remove)
      ≡ (not (is_nil k) && ((written k existing || written k add) && not (written k remove)))
unfolding merge_memory_list
merge_exact k existing add remove =
    let xs = normalize_memory_list existing in
    let ys = normalize_memory_list add in
    let gone = normalize_memory_list remove in
    let trimmed = λ (vs : List Text).
      normal-Trimmed [] (normalize_memory_list vs) (normalize_list-IsNormal vs).0 in
    ground (
      arith,
      has_key-normalize k (without gone (xs ++ ys)),
      written-Trimmed k (without gone (xs ++ ys)) (
          without-Trimmed gone (xs ++ ys)
            (All-append (λ v. trim_space v ≡ v) xs ys (trimmed existing) (trimmed add))),
      has_key-without k gone (xs ++ ys),
      has_key-append k xs ys,
      has_key-normalize k existing,
      has_key-normalize k add,
      has_key-normalize k remove,
    )

written-normalize :
    (k : Text) (vs : List Text)
    → written k (normalize_memory_list vs) ≡ (not (is_nil k) && written k vs)
written-normalize k vs =
    written-Trimmed k (normalize_memory_list vs)
      (normal-Trimmed [] (normalize_memory_list vs) (normalize_list-IsNormal vs).0)
    ∙ has_key-normalize k vs

merge_normal :
    (existing add remove : List Text)
    → normalize_memory_list (merge_memory_list existing add remove)
      ≡ merge_memory_list existing add remove
unfolding merge_memory_list
merge_normal existing add remove = (normalize_list-IsNormal _).1

-- the same of a list that is normalized before the merge, twice, and after it
pub merge-normalize_exact :
    (k : Text) (existing add remove : List Text)
    → has_key k (
        normalize_memory_list
          (merge_memory_list (normalize_memory_list (normalize_memory_list existing)) add remove))
      ≡ (not (is_nil k) && ((written k existing || written k add) && not (written k remove)))
merge-normalize_exact k existing add remove =
    rw ((normalize_list-IsNormal existing).1, merge_normal)
      (ground (
        arith,
        merge_exact k (normalize_memory_list existing) add remove,
        written-normalize k existing,
      ))
