-- ===== src/Server/Logger/Rotation.antt =====
-- The loop of Server/logger.cpp that looks for a name for the old log.
use Prim.Native.String.{◌++◌ as text_append}
use text.Mathlib.TextLemmas.{append_cancel_left, append_cancel_right, cons-append}
use messenger_walkie_talkie.Prelude.{
  ℕ, zero, suc, ◌≤◌, String, ◌≡◌, ◌≢◌, refl, ap, ◌∙◌, true, false, [], ◌∷◌, if◌then◌else◌, length,
  arith, eq_iff, ◌==◌, string_eq, codes, Bool-cases, inl, inr,
}
use messenger_walkie_talkie.Prelude.Dict.{get, remove, get-remove}
use messenger_walkie_talkie.Server.Logger.{
  Files, exists, rotated_name, numbered_name, free_name, archive_name,
}

abbrev first_code : String → ℕ
first_code text = elim (codes text) [ [] ↦ 0 | code ∷ rest ↦ code ]

exists-remove :
    (name other : String) (files : Files)
    → exists other (remove name files) ≡ (if name == other then false else exists other files)
exists-remove name other files = ground (arith, get-remove name other files)

length-remove-le : (name : String) (files : Files) → length (remove name files) ≤ length files
unfolding remove
length-remove-le name [] = ground arith
length-remove-le name ((j, text) ∷ files) = ground (arith, length-remove-le name files)

length-remove :
    (name : String) (files : Files)
    → exists name files ≡ true
    → suc (length (remove name files)) ≤ length files
unfolding remove get
length-remove name [] h = absurd (ground (arith, h))
length-remove name ((j, text) ∷ files) h =
    ground (arith, length-remove name files, length-remove-le name files, h)

module _ (number : ℕ → String) (size : String → ℕ) (now : String) where
  abbrev numbered : ℕ → String
  numbered n = numbered_name number size now n

  -- The loop looks only at the names that it tries.
  free_name-agree :
      (fuel : ℕ) (name : String) (suffix : ℕ) (files others : Files)
      → exists name files ≡ exists name others
      → ((n : ℕ) → suffix ≤ n → exists (numbered n) files ≡ exists (numbered n) others)
      → free_name number size fuel now name suffix files
        ≡ free_name number size fuel now name suffix others
  unfolding free_name
  free_name-agree zero name suffix files others first next = refl
  free_name-agree (suc fuel) name suffix files others first next =
      rw
        (
          first,
          free_name-agree fuel (numbered suffix) (suc suffix) files others
              (next suffix (ground arith)) (λ n h. next n (ground (arith, h))),
        )
        refl

  -- It gives a name that it tries.
  free_name_differs :
      (x : String) (fuel : ℕ) (name : String) (suffix : ℕ) (files : Files)
      → (x == name) ≡ false
      → ((n : ℕ) → suffix ≤ n → (x == numbered n) ≡ false)
      → (x == free_name number size fuel now name suffix files) ≡ false
  unfolding free_name
  free_name_differs x zero name suffix files first next = first
  free_name_differs x (suc fuel) name suffix files first next =
      elim (Bool-cases (exists name files)) [
        | inl taken ↦ rw taken (
            free_name_differs x fuel (numbered suffix) (suc suffix) files
              (next suffix (ground arith)) (λ n h. next n (ground (arith, h))))
        | inr free ↦ rw free first
      ]

  module _ (number-inj : (m n : ℕ) → number m ≡ number n → m ≡ n) where
    numbered-inj : (m n : ℕ) → numbered m ≡ numbered n → m ≡ n
    numbered-inj m n h = number-inj m n (
        append_cancel_right (number m) (number n) ".log" (
          append_cancel_left "_" (text_append (number m) ".log") (text_append (number n) ".log") (
            append_cancel_left now (text_append "_" (text_append (number m) ".log"))
              (text_append "_" (text_append (number n) ".log"))
              (append_cancel_left "logs/server_"
                (text_append now (text_append "_" (text_append (number m) ".log")))
                (text_append now (text_append "_" (text_append (number n) ".log"))) h))))

    base-numbered : (n : ℕ) → rotated_name number size now ≢ numbered n
    base-numbered n h =
        let tails : ".log" ≡ text_append "_" (text_append (number n) ".log") =
          append_cancel_left now ".log" (text_append "_" (text_append (number n) ".log")) (
            append_cancel_left "logs/server_" (text_append now ".log")
              (text_append now (text_append "_" (text_append (number n) ".log"))) h) in
        let firsts : 46 ≡ 95 =
          ap first_code (tails ∙ cons-append _ _ (text_append (number n) ".log")) in
        ground (arith, firsts)

    free_name_is_free :
        (fuel : ℕ) (name : String) (suffix : ℕ) (files : Files)
        → suc (length files) ≤ fuel
        → ((n : ℕ) → suffix ≤ n → (name == numbered n) ≡ false)
        → exists (free_name number size fuel now name suffix files) files ≡ false
    unfolding free_name
    free_name_is_free zero name suffix files enough other = absurd (ground (arith, enough))
    free_name_is_free (suc fuel) name suffix files enough other =
        elim (Bool-cases (exists name files)) [
          | inr free ↦ rw free free
          | inl taken ↦
              let rest = remove name files in
              let next = free_name number size fuel now (numbered suffix) (suc suffix) files in
              let same : next ≡ free_name number size fuel now (numbered suffix) (suc suffix) rest =
                free_name-agree fuel (numbered suffix) (suc suffix) files rest
                  (ground (arith, exists-remove name (numbered suffix) files, other suffix))
                  (λ n h. ground (arith, exists-remove name (numbered n) files, other n, h)) in
              let free_of_rest : exists next rest ≡ false =
                ap (λ x. exists x rest) same
                ∙ free_name_is_free fuel (numbered suffix) (suc suffix) rest
                    (ground (arith, length-remove name files taken, enough))
                    (λ n h.
                      ground
                        (arith, numbered-inj suffix n, eq_iff (numbered suffix) (numbered n), h)) in
              let differs : (name == next) ≡ false =
                free_name_differs name fuel (numbered suffix) (suc suffix) files
                  (other suffix (ground arith)) (λ n h. other n (ground (arith, h))) in
              rw taken (ground (arith, exists-remove name next files, free_of_rest, differs))
        ]

    -- With more rounds than there are files the loop ends with a name that no file has.
    pub archive_name_is_free :
        (files : Files) → exists (archive_name number size now files) files ≡ false
    archive_name_is_free files =
        free_name_is_free (suc (length files)) (rotated_name number size now) 1 files (ground arith)
          (λ n h.
            ground (arith, base-numbered n, eq_iff (rotated_name number size now) (numbered n)))
