-- ===== src/Args/Found.antt =====
-- What files `parse_args` of src/main/args.cpp finds.
use back_tester.Prelude.{
  ◌≡◌, ◌≢◌, refl, sym, subst, ◌∙◌, true, false, not, ◌||◌, Bool, Bool-cases, if_cases, inl, inr,
  List, [], ◌∷◌,
}
use back_tester.JsonNative.Scan.{Text}
use back_tester.JsonNative.File.{ends_with}
use back_tester.Args.{FileSystem, collect, found, source_files, parse_args}

left_out : (a b : Bool) → (not a || not b) ≡ true → (a ≡ true) × (b ≡ true) → ⊥
left_out true true h d = absurd (cc)
left_out true false h d = absurd (cc)
left_out false b h d = absurd (cc)

taken : (a b : Bool) → (not a || not b) ≡ false → (a ≡ true) × (b ≡ true)
taken true true h = (refl, refl)
taken true false h = absurd (cc)
taken false b h = absurd (cc)

module _ (fs : FileSystem) (filename_ext : Text) where
  -- A regular file of the wanted name.
  abbrev pub IsData : Text → Type 0
  IsData path = (fs.is_regular_file path ≡ true) × (ends_with path filename_ext ≡ true)

  -- The files are the paths that are data, in their order and each as often as it is listed.
  abbrev pub IsKept : List Text → List Text → Type 0
  IsKept [] files = files ≡ []
  IsKept (p ∷ paths) files =
      (IsData p → (rest : List Text) × (files ≡ p ∷ rest) × IsKept paths rest)
      × ((IsData p → ⊥) → IsKept paths files)

  collect-IsKept : (paths : List Text) → IsKept paths (collect fs filename_ext paths)
  unfolding collect
  collect-IsKept [] = refl
  collect-IsKept (p ∷ paths) =
      let rest = collect fs filename_ext paths in
      let file = fs.is_regular_file p in
      let named = ends_with p filename_ext in
      if_cases (IsKept (p ∷ paths)) (not file || not named)
        (λ out. (λ d. absurd (left_out file named out d), λ _. collect-IsKept paths))
        (λ kept. (
          λ _. (rest, refl, collect-IsKept paths),
          λ other. absurd (other (taken file named kept)),
        ))

  -- What a directory gives.
  found-collect : (xs files : List Text) → found fs xs ≡ inr files → (xs ≡ files) × (files ≢ [])
  found-collect [] files h = absurd (cc)
  found-collect (p ∷ paths) files h = (cc, λ e. cc)

  -- A directory gives its entries that are data, of which there is one; a regular file gives itself, and
  -- is data; another path gives nothing.
  pub record IsFound (source : Text) (files : List Text) : Type 0 where
    pub of_directory :
        fs.is_directory source ≡ true → IsKept (fs.entries source) files × (files ≢ [])
    pub of_file :
        fs.is_directory source ≡ false
        → fs.is_regular_file source ≡ true
        → (files ≡ source ∷ []) × (ends_with source filename_ext ≡ true)
    pub of_nothing : fs.is_directory source ≡ false → fs.is_regular_file source ≡ false → files ≡ []

  source_files-IsFound :
      (source : Text) (files : List Text)
      → source_files fs source filename_ext ≡ inr files
      → IsFound source files
  unfolding source_files
  source_files-IsFound source files h = elim (Bool-cases (fs.is_directory source)) [
    | inl folder ↦
        let f =
          found-collect (collect fs filename_ext (fs.entries source)) files (rw folder at h) in
        record {
          of_directory = λ _.
              (subst (IsKept (fs.entries source)) f.0 (collect-IsKept (fs.entries source)), f.1);
          of_file = λ other. absurd (let z = sym folder ∙ other in cc);
          of_nothing = λ other. absurd (let z = sym folder ∙ other in cc);
        }
    | inr other ↦
        let h' = rw other at h in
        elim (Bool-cases (fs.is_regular_file source)) [
          | inl file ↦
              let h2 = rw file at h' in
              elim (Bool-cases (ends_with source filename_ext)) [
                | inl named ↦
                    let h3 = rw named at h2 in
                    let e : source ∷ [] ≡ files = cc in
                    record {
                      of_directory = λ folder. absurd (let z = sym folder ∙ other in cc);
                      of_file = λ _ _. (sym e, named);
                      of_nothing = λ _ missing. absurd (let z = sym file ∙ missing in cc);
                    }
                | inr unnamed ↦ absurd (let h3 = rw unnamed at h2 in cc)
              ]
          | inr missing ↦
              let h2 = rw missing at h' in
              let e : [] ≡ files = cc in
              record {
                of_directory = λ folder. absurd (let z = sym folder ∙ other in cc);
                of_file = λ _ file. absurd (let z = sym file ∙ missing in cc);
                of_nothing = λ _ _. sym e;
              }
        ]
  ]

  -- If the arguments are accepted, they are the program's name and a source. If that is a directory, the
  -- files are its entries that are regular files of the wanted name, in order and each as often as it is
  -- listed, and there is one; a regular file is the only one, and has the wanted name; if the source is
  -- neither, there is no file.
  pub parse_args-IsFound :
      (args files : List Text)
      → parse_args fs args filename_ext ≡ inr files
      → (program : Text) × (source : Text) × (args ≡ program ∷ source ∷ []) × IsFound source files
  unfolding parse_args
  parse_args-IsFound [] files h = absurd (cc)
  parse_args-IsFound (program ∷ []) files h = absurd (cc)
  parse_args-IsFound (program ∷ source ∷ []) files h =
      (program, source, refl, source_files-IsFound source files h)
  parse_args-IsFound (program ∷ source ∷ arg ∷ args) files h = absurd (cc)
