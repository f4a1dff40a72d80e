-- ===== src/Args.antt =====
-- `parse_args` of src/main/args.cpp. The file system is a parameter.
pub mod Found
use back_tester.Prelude.{
  Bool, true, false, not, ◌&&◌, ◌||◌, List, [], ◌∷◌, ◌⊎◌, inl, inr, if◌then◌else◌,
}
use back_tester.JsonNative.Scan.{Text}
use back_tester.JsonNative.File.{ends_with}

-- `std::filesystem`: two tests of a path, and the paths of a directory's entries.
pub record FileSystem : Type 0 where
  pub is_directory : Text → Bool
  pub is_regular_file : Text → Bool
  pub entries : Text → List Text

-- Each of these prints the usage hint and throws.
pub data ArgsError : Type 0 where
  invalid_arguments data_files_not_found invalid_extension : ArgsError

module _ (fs : FileSystem) where
  open fs use {is_directory, is_regular_file, entries}

  -- The loop over the directory, without the entries that it leaves out by `continue`.
  unfoldable pub collect : Text → List Text → List Text
  unfolding ends_with
  collect filename_ext [] = []
  collect filename_ext (path ∷ paths) =
      let rest = collect filename_ext paths in
      if not (is_regular_file path) || not (ends_with path filename_ext) then rest else path ∷ rest

  abbrev pub found : List Text → ArgsError ⊎ List Text
  found [] = inl ArgsError.data_files_not_found
  found (path ∷ paths) = inr (path ∷ paths)

  unfoldable pub source_files : Text → Text → ArgsError ⊎ List Text
  unfolding collect ends_with
  source_files source filename_ext =
      if is_directory source
      then found (collect filename_ext (entries source))
      else (if is_regular_file source
          then (if not (ends_with source filename_ext)
              then inl ArgsError.invalid_extension
              else inr (source ∷ []))
          else inr [])

  -- The arguments begin with the program's name. The files are `data_files` of the result.
  unfoldable pub parse_args : List Text → Text → ArgsError ⊎ List Text
  unfolding source_files
  parse_args (program ∷ source ∷ []) filename_ext = source_files source filename_ext
  parse_args args filename_ext = inl ArgsError.invalid_arguments
