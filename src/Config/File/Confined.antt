-- ===== src/Config/File/Confined.antt =====
-- Which file a lookup reads, and what it makes of the file's last line end (config_file.go).
use Prim.Native.String.{◌++◌ as append}
use scaffold_go.Base.{
  String, ◌≡◌, ap, ◌∙◌, true, false, Bool-cases, inl, inr, none, some, [], ◌∷◌, ◌++◌, Option-cases,
  str_eq, eq_iff, arith, ◌⊎◌,
}
use scaffold_go.Go.{Error}
use scaffold_go.Platform.{err}
use scaffold_go.Config.Filepath.{clean, is_rooted, elements, render, ends_with}
use scaffold_go.Config.Filepath.Child.{IsFileName, clean-name, join_path-child}
use scaffold_go.Config.Filepath.Suffix.{
  ends_with-append, ends_with-newline, ends_with-return_newline, drop_last-append,
}
use scaffold_go.Config.File.{
  FileConfigProvider, FileSystem, validate_key, trim_one_trailing_newline, file_read, checked_read,
  read_key,
}

validate_key-none : (key : String) → validate_key key ≡ none → IsFileName key
unfolding validate_key
validate_key-none key e = record {
  not_empty = ground arith;
  not_dot = ground arith;
  not_dots = ground arith;
  one_element = ground arith;
}

-- The test for a clean path passes every key that the tests before it do.
validate_key-IsFileName : (key : String) → IsFileName key → validate_key key ≡ none
unfolding validate_key
validate_key-IsFileName key h =
    let clean_itself : str_eq (clean key) key ≡ true =
      (eq_iff (clean key) key).1 (clean-name key h) in
    rw (h.not_empty, h.one_element, h.not_dot, h.not_dots, clean_itself)

validate_key-cases : (key : String) → IsFileName key ⊎ ((e : Error) × (validate_key key ≡ some e))
validate_key-cases key = elim (Option-cases (validate_key key)) [
  | inl valid ↦ inl (validate_key-none key valid)
  | inr refused ↦ inr refused
]

module _ (p : FileConfigProvider) where
  read_key-name :
      (fs : FileSystem) (key : String)
      → IsFileName key
      → read_key p fs key
        ≡ file_read p fs key (fs.read_file (render (is_rooted p.dir) (elements p.dir ++ key ∷ [])))
  unfolding read_key
  read_key-name fs key h =
      ap (checked_read p fs key) (validate_key-IsFileName key h)
      ∙ ap (λ path. file_read p fs key (fs.read_file path)) (join_path-child p.dir key h)

  -- A lookup reads no other file than the one of the key's name, directly in the provider's
  -- directory, `..` and repeated separators in the directory's own path resolved. A key that is no
  -- file's name, since it is empty, `.` or `..`, or holds a separator, gets one and the same error
  -- whatever the files hold; every other key passes validation.
  pub read_key_confined :
      (key : String)
      → (IsFileName key
          → (fs : FileSystem)
          → read_key p fs key
            ≡ file_read p fs key
                (fs.read_file (render (is_rooted p.dir) (elements p.dir ++ key ∷ []))))
        × (¬ IsFileName key → (e : Error) × ((fs : FileSystem) → read_key p fs key ≡ err e))
  unfolding read_key
  read_key_confined key = (
    λ h fs. read_key-name fs key h,
    λ bad. elim (validate_key-cases key) [
      | inl h ↦ absurd (bad h)
      | inr (e, refused) ↦ (e, λ fs. ap (checked_read p fs key) refused)
    ],
  )

-- The last line end of a file, a newline with or without a carriage return, is no part of the value.
-- A file that holds a value and then a carriage return with a newline, or a value that does not end in
-- a carriage return and then a newline, or a value alone that does not end in a newline, is read as
-- that value.
pub trim_one_trailing_newline-append :
    (v : String)
    → (trim_one_trailing_newline (append v "\r\n") ≡ v)
      × (ends_with v "\r" ≡ false → trim_one_trailing_newline (append v "\n") ≡ v)
      × (ends_with v "\n" ≡ false → trim_one_trailing_newline v ≡ v)
unfolding trim_one_trailing_newline
trim_one_trailing_newline-append v = (
  rw (ends_with-append v "\r\n") (drop_last-append v "\r\n"),
  λ no_return.
      let shorter : ends_with (append v "\n") "\r\n" ≡ false = ends_with-newline v ∙ no_return in
      rw (shorter, ends_with-append v "\n") (drop_last-append v "\n"),
  λ no_newline. elim (Bool-cases (ends_with v "\r\n")) [
    | inl both ↦ cc (ends_with-return_newline v both, no_newline)
    | inr neither ↦ rw (neither, no_newline)
  ],
)
