-- ===== src/Logging.antt =====
-- src/base/logging.cpp on Linux: the file that the log is written to. A text is the list of its characters, and has no
-- NUL. The disk is a function from names to contents, and `opens` says of which names fopen gives a file;
-- what is put into an open file is written. `none` is a call of the C library on a NULL pointer.
pub mod File
pub mod Tag
mod Tests
use gitrpc.Prelude.{
  ℕ, zero, suc, ◌+◌, ◌/◌, ◌%◌, ◌==◌, Bool, true, false, Option, none, some, List, [], ◌∷◌, ◌++◌,
  codes, take, drop, ltb, if◌then◌else◌, ◌>>=◌,
}
use gitrpc.Utils.{equal_text}

abbrev pub Text : Type 0
Text = List ℕ

-- The static members of the class, `filename` with no value before InitLog, and the disk.
pub record Logging : Type 0 where
  pub tag_to_show : Text
  pub filename : Option Text
  pub files : Text → Option Text

-- std::to_string of a number: its decimal digits. The fuel is more than there are digits.
unfoldable pub to_digits : ℕ → ℕ → Text → Text
to_digits zero n digits = digits
to_digits (suc fuel) n digits =
    let more = to_digits fuel (n / 10) ((48 + n % 10) ∷ digits) in
    if ltb n 10 then (48 + n) ∷ digits else more

unfoldable pub to_string : ℕ → Text
to_string n = to_digits (suc n) n []

-- strrchr: what starts at the last character of this kind.
unfoldable pub strrchr : ℕ → Text → Option Text
strrchr c [] = none
strrchr c (x ∷ s) = elim (strrchr c s) [
  | some final ↦ some final
  | none ↦ if x == c then some (x ∷ s) else none
]

-- The part of a tag that Log shows.
unfoldable pub final_tag : Text → Text
final_tag tag = elim (strrchr 47 tag) [ none ↦ tag | some final_slash ↦ drop 1 final_slash ]

-- The line that Log writes, of the text that vsnprintf has made.
unfoldable pub log_line : Text → ℕ → Text → Text
log_line tag line buffer =
    final_tag tag ++ codes ":" ++ to_string line ++ codes "] " ++ take 2047 buffer

-- The line of the log, with the thread and the program in front of it.
unfoldable pub log_entry : ℕ → Text → Text → Bool → Text
log_entry thread_id program entry auto_append_tag =
    codes "["
    ++ to_string thread_id
    ++ codes ";"
    ++ program
    ++ codes ";"
    ++ (if auto_append_tag then codes "All] " else [])
    ++ entry

-- The contents of a file, changed.
unfoldable pub set_file : Text → Text → (Text → Option Text) → Text → Option Text
set_file name content files other = if equal_text other name then some content else files other

-- What an open file starts with: nothing in the mode "w", what it has in the mode "a+".
unfoldable pub opened_content : Bool → Text → (Text → Option Text) → Text
opened_content delete_file name files =
    if delete_file then [] else elim (files name) [ none ↦ [] | some content ↦ content ]

-- fopen, fputs, fputc and fclose, and nothing if the file does not open.
unfoldable pub put_line :
    (Text → Bool) → Bool → Text → Text → (Text → Option Text) → Text → Option Text
put_line opens delete_file name entry files =
    if opens name
    then set_file name (opened_content delete_file name files ++ (entry ++ 10 ∷ [])) files
    else files

module _ (opens : Text → Bool) where
  -- fclose has no file to close if the file does not open.
  unfoldable pub init_log : Text → Logging → Option Logging
  init_log filename s =
      if opens filename
      then some (record s { filename = some filename; files = set_file filename [] s.files })
      else none

  -- A call that is not made during another one: the code takes no lock, and calls that overlap are left out.
  unfoldable pub write_to_log : ℕ → Text → Text → Bool → Bool → Logging → Option Logging
  write_to_log thread_id program entry delete_file auto_append_tag s = s.filename >>= λ filename.
      some (record s {
        files =
            put_line opens delete_file filename (log_entry thread_id program entry auto_append_tag)
              s.files;
      })

  unfoldable pub log : ℕ → Text → Text → ℕ → Text → Logging → Option Logging
  log thread_id program tag line buffer s =
      write_to_log thread_id program (log_line tag line buffer) false false s

  unfoldable pub log_show_only_tag : Text → Logging → Logging
  log_show_only_tag tag s = record s { tag_to_show = tag }

  -- MonoLog of a debug build.
  unfoldable pub mono_log : Text → Bool → Logging → Logging
  mono_log entry delete_first s = record s {
    files = put_line opens delete_first (codes "monologue.txt") entry s.files;
  }
