-- ===== src/Settings/Disk/Laws.antt =====
-- The files of core/settings-store.cpp: reading after replacing and removing, and moving a file.
use obs_dsk_multistream.Base.{
  true, ℕ, zero, suc, ◌+◌, ◌≤◌, ◌<◌, length, String, ◌≡◌, refl, ap, sym, ◌∙◌, ◌≢◌, false, ◌==◌,
  none, some, List, [], ◌∷◌, arith, eq_iff, eq_refl, Bool-cases, inl, inr, is_some, ne_of_test,
}
use obs_dsk_multistream.Settings.Disk.{File, content_at, exists, remove, replace}

module _ {ℓ} {B : Type ℓ} where
  pub content_at-remove :
      (p q : String) (fs : List (File B)) → p ≢ q → content_at q (remove p fs) ≡ content_at q fs
  unfolding content_at remove
  content_at-remove p q [] h = refl
  content_at-remove p q (f ∷ fs) h =
      ground (arith, content_at-remove p q fs h, eq_iff f.path p, eq_iff f.path q)

  pub content_at-replace :
      (p : String) (b : B) (fs : List (File B)) → content_at p (replace p b fs) ≡ some b
  unfolding content_at replace
  content_at-replace p b fs = rw (eq_refl p) refl

  pub content_at-replace_other :
      (p q : String) (b : B) (fs : List (File B))
      → p ≢ q
      → content_at q (replace p b fs) ≡ content_at q fs
  unfolding content_at replace
  content_at-replace_other p q b fs h = ground (arith, eq_iff p q, content_at-remove p q fs h)

  pub content_at-remove_same : (p : String) (fs : List (File B)) → content_at p (remove p fs) ≡ none
  unfolding content_at remove
  content_at-remove_same p [] = refl
  content_at-remove_same p (f ∷ fs) = ground (arith, content_at-remove_same p fs)

  abbrev pub IsKept : List (File B) → List (File B) → Type ℓ
  IsKept before after =
      (q : String) (b : B)
      → content_at q before ≡ some b
      → (q' : String) × (content_at q' after ≡ some b)

  pub not_free :
      (aside q : String) (b : B) (fs : List (File B))
      → exists aside fs ≡ false
      → content_at q fs ≡ some b
      → aside ≢ q
  not_free aside q b fs free e same =
      absurd (let taken : content_at aside fs ≡ some b = rw same e in cc (ap is_some taken, free))

  -- Moving a file to a free path keeps every content.
  pub move-IsKept :
      (p aside : String) (content : B) (fs : List (File B))
      → content_at p fs ≡ some content
      → exists aside fs ≡ false
      → IsKept fs (replace aside content (remove p fs))
  move-IsKept p aside content fs h free q b e = elim (Bool-cases (p == q)) [
    | inl same ↦ (
      aside,
      content_at-replace aside content (remove p fs)
          ∙ (sym h ∙ (ap (λ x. content_at x fs) ((eq_iff p q).0 same) ∙ e)),
    )
    | inr other ↦ (
      q,
      content_at-replace_other aside q content (remove p fs) (not_free aside q b fs free e)
          ∙ (content_at-remove p q fs (ne_of_test p q other) ∙ e),
    )
  ]

  length-remove-le : (p : String) (fs : List (File B)) → length (remove p fs) ≤ length fs
  unfolding remove
  length-remove-le p [] = omega arith
  length-remove-le p (f ∷ fs) = ground (arith, length-remove-le p fs)

  length-remove-lt :
      (p : String) (fs : List (File B)) → exists p fs ≡ true → length (remove p fs) < length fs
  unfolding remove content_at
  length-remove-lt p [] h = ground arith
  length-remove-lt p (f ∷ fs) h = ground (arith, length-remove-le p fs, length-remove-lt p fs)

  -- Of more distinct names than there are files, one is not taken.
  pub free_name :
      (name : ℕ → String)
      → ((i j : ℕ) → name i ≡ name j → i ≡ j)
      → (turns first : ℕ) (fs : List (File B)) → length fs < turns
      → (i : ℕ) × (first ≤ i) × (i < first + turns) × (exists (name i) fs ≡ false)
  free_name name distinct zero first fs h = absurd (omega arith)
  free_name name distinct (suc turns) first fs h = elim (Bool-cases (exists (name first) fs)) [
    | inr e ↦ (first, omega arith, omega arith, e)
    | inl e ↦
        let (i, low, high, free) =
          free_name name distinct turns (suc first) (remove (name first) fs)
            (omega (arith, length-remove-lt (name first) fs e)) in
        (
          i,
          omega arith,
          omega arith,
          ap is_some (
                sym (
                  content_at-remove (name first) (name i) fs
                    (λ same. absurd (omega (arith, distinct first i same)))))
              ∙ free,
        )
  ]
