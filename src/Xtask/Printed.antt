-- ===== src/Xtask/Printed.antt =====
-- The version that clang-format prints, under verify_version of xtask/src/cpp.rs.
use mathlib.Core.List.{reverse_aux, reverse-append, reverse-reverse}
use kuai.Prelude.{
  ℕ, ◌≡◌, refl, sym, ap, ◌∙◌, inl, inr, Bool, true, ◌==◌, ==_iff, Bool-cases, [], ◌∷◌, ◌++◌,
  reverse, All,
}
use kuai.Syntax.Text.{codes}
use kuai.Xtask.Path.{OsString, bytes_eq}
use kuai.Xtask.Result.{returned}
use kuai.Xtask.Version.{trim_start, trim_end, is_line_end, verify_version}

bytes_eq-eq : (s t : OsString) → bytes_eq s t ≡ true → s ≡ t
bytes_eq-eq [] [] h = refl
bytes_eq-eq [] (c ∷ cs) h = cc h
bytes_eq-eq (b ∷ bs) [] h = cc h
bytes_eq-eq (b ∷ bs) (c ∷ cs) h = elim (Bool-cases (b == c)) [
  | inl e ↦ cc ((==_iff b c).0 e, bytes_eq-eq bs cs (rw e at h))
  | inr e ↦ cc (rw e at h)
]

module _ (is_trimmed : ℕ → Bool) where
  abbrev AllTrimmed : OsString → Type 0
  AllTrimmed = All (λ c. is_trimmed c ≡ true)

  trim_start-parts :
      (s : OsString)
      → (front : OsString) × (s ≡ front ++ trim_start is_trimmed s) × AllTrimmed front
  trim_start-parts [] = ([], refl, tt)
  trim_start-parts (c ∷ cs) = elim (Bool-cases (is_trimmed c)) [
    | inl e ↦
        let (front, parts, all) = trim_start-parts cs in
        (c ∷ front, rw e (ap (◌∷◌ c) parts), (e, all))
    | inr e ↦ ([], rw e refl, tt)
  ]

  reverse_aux-AllTrimmed :
      (s t : OsString) → AllTrimmed s → AllTrimmed t → AllTrimmed (reverse_aux s t)
  reverse_aux-AllTrimmed [] t h k = k
  reverse_aux-AllTrimmed (c ∷ cs) t (h, hs) k = reverse_aux-AllTrimmed cs (c ∷ t) hs (h, k)

  trim_end-parts :
      (s : OsString) → (back : OsString) × (s ≡ trim_end is_trimmed s ++ back) × AllTrimmed back
  trim_end-parts s =
      let (front, parts, all) = trim_start-parts (reverse s) in
      (
        reverse front,
        sym (reverse-reverse s)
            ∙ ap reverse parts
            ∙ reverse-append front (trim_start is_trimmed (reverse s)),
        reverse_aux-AllTrimmed front [] all tt,
      )

-- A text is that of the version and then ends of lines at most.
abbrev pub IsPrinted : OsString → OsString → Type 0
IsPrinted version stdout =
    (ends : OsString) × (stdout ≡ (codes "clang-format version " ++ version) ++ ends)
    × All (λ c. is_line_end c ≡ true) ends

pub verify_version-IsPrinted :
    (version stdout : OsString)
    → verify_version version stdout ≡ returned tt
    → IsPrinted version stdout
unfolding verify_version
verify_version-IsPrinted version stdout h =
    let (ends, parts, all) = trim_end-parts is_line_end stdout in
    let actual = trim_end is_line_end stdout in
    elim (Bool-cases (bytes_eq actual (codes "clang-format version " ++ version))) [
      | inl e ↦ (ends, parts ∙ ap (λ t. t ++ ends) (bytes_eq-eq actual _ e), all)
      | inr e ↦ absurd (cc (rw e at h))
    ]
