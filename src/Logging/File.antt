-- ===== src/Logging/File.antt =====
-- What the file of the log holds after any calls.
use gitrpc.Prelude.{
  ℕ, ==_iff, ◌≡◌, refl, sym, ap, subst, ◌∙◌, Bool, true, false, Option, some, List, [], ◌∷◌, ◌++◌,
  append_assoc, All, if◌then◌else◌, ◌>>=◌,
}
use gitrpc.Utils.{equal_text, split}
use gitrpc.Utils.Split.{lines, IsFree, split-lines}
use gitrpc.Logging.{
  Text, Logging, log_line, log_entry, set_file, opened_content, put_line, init_log, write_to_log,
  log, log_show_only_tag,
}

-- A call, with the number of its thread.
pub data LogCall : Type 0 where
  write_call : (entry : Text) → (delete_file auto_append_tag : Bool) → LogCall
  log_call : (tag : Text) → (line : ℕ) → (buffer : Text) → LogCall
  show_call : (tag : Text) → LogCall

module _ (opens : Text → Bool) (program : Text) where
  unfoldable pub call : ℕ × LogCall → Logging → Option Logging
  call (thread_id, write_call entry delete_file auto_append_tag) s =
      write_to_log opens thread_id program entry delete_file auto_append_tag s
  call (thread_id, log_call tag line buffer) s = log opens thread_id program tag line buffer s
  call (thread_id, show_call tag) s = some (log_show_only_tag opens tag s)

  unfoldable pub call_all : List (ℕ × LogCall) → Logging → Option Logging
  call_all [] s = some s
  call_all (c ∷ calls) s = call c s >>= λ s1. call_all calls s1

  -- The lines of the file, from those that it has: a call that deletes the file leaves its own line alone.
  abbrev pub written : List (ℕ × LogCall) → List Text → List Text
  written [] before = before
  written ((thread_id, write_call entry delete_file auto_append_tag) ∷ calls) before =
      written calls (
        (if delete_file then [] else before)
        ++ log_entry thread_id program entry auto_append_tag ∷ [])
  written ((thread_id, log_call tag line buffer) ∷ calls) before =
      written calls (before ++ log_entry thread_id program (log_line tag line buffer) false ∷ [])
  written ((thread_id, show_call tag) ∷ calls) before = written calls before

  equal_text_refl : (s : Text) → equal_text s s ≡ true
  unfolding equal_text
  equal_text_refl [] = refl
  equal_text_refl (c ∷ s) = rw ((==_iff c c).1 refl) (equal_text_refl s)

  lines-append :
      (before : List Text) (entry : Text)
      → lines 10 (before ++ entry ∷ []) ≡ lines 10 before ++ (entry ++ 10 ∷ [])
  lines-append [] entry = refl
  lines-append (item ∷ before) entry =
      let more : List ℕ = 10 ∷ lines 10 before in
      ap (λ s. item ++ 10 ∷ s) (lines-append before entry)
      ∙ sym (append_assoc item more (entry ++ 10 ∷ []))

  -- The file of this name is the log, and holds these lines.
  abbrev pub HoldsLines : Text → List Text → Logging → Type 0
  HoldsLines name before s = (s.filename ≡ some name) × (s.files name ≡ some (lines 10 before))

  put_line-lines :
      (name entry : Text) (delete_file : Bool) (before : List Text) (files : Text → Option Text)
      → opens name ≡ true
      → files name ≡ some (lines 10 before)
      → put_line opens delete_file name entry files name
        ≡ some (lines 10 ((if delete_file then [] else before) ++ entry ∷ []))
  unfolding put_line set_file opened_content
  put_line-lines name entry true before files e f = rw (e, equal_text_refl name) refl
  put_line-lines name entry false before files e f =
      rw (e, equal_text_refl name, f) (ap some (sym (lines-append before entry)))

  write-HoldsLines :
      (thread_id : ℕ) (entry name : Text) (delete_file auto_append_tag : Bool) (before : List Text)
      (s : Logging)
      → opens name ≡ true
      → HoldsLines name before s
      → (s1 : Logging) × (write_to_log opens thread_id program entry delete_file auto_append_tag s
          ≡ some s1)
        × HoldsLines name
            ((if delete_file then [] else before)
              ++ log_entry thread_id program entry auto_append_tag ∷ [])
            s1
  unfolding write_to_log
  write-HoldsLines thread_id entry name delete_file auto_append_tag before s e (f, g) =
      let line = log_entry thread_id program entry auto_append_tag in
      (
        record s { files = put_line opens delete_file name line s.files },
        rw f refl,
        (f, put_line-lines name line delete_file before s.files e g),
      )

  call-HoldsLines :
      (c : ℕ × LogCall) (name : Text) (before : List Text) (s : Logging)
      → opens name ≡ true
      → HoldsLines name before s
      → (s1 : Logging) × (call c s ≡ some s1) × HoldsLines name (written (c ∷ []) before) s1
  unfolding call log log_show_only_tag
  call-HoldsLines (thread_id, write_call entry delete_file auto_append_tag) name before s e holds =
      write-HoldsLines thread_id entry name delete_file auto_append_tag before s e holds
  call-HoldsLines (thread_id, log_call tag line buffer) name before s e holds =
      write-HoldsLines thread_id (log_line tag line buffer) name false false before s e holds
  call-HoldsLines (thread_id, show_call tag) name before s e holds = (_, refl, holds)

  written-step :
      (c : ℕ × LogCall) (calls : List (ℕ × LogCall)) (before : List Text)
      → written calls (written (c ∷ []) before) ≡ written (c ∷ calls) before
  written-step (thread_id, write_call entry delete_file auto_append_tag) calls before = refl
  written-step (thread_id, log_call tag line buffer) calls before = refl
  written-step (thread_id, show_call tag) calls before = refl

  call_all-HoldsLines :
      (calls : List (ℕ × LogCall)) (name : Text) (before : List Text) (s : Logging)
      → opens name ≡ true
      → HoldsLines name before s
      → (s1 : Logging) × (call_all calls s ≡ some s1) × HoldsLines name (written calls before) s1
  unfolding call_all
  call_all-HoldsLines [] name before s e holds = (s, refl, holds)
  call_all-HoldsLines (c ∷ calls) name before s e holds =
      let (s1, called, now) = call-HoldsLines c name before s e holds in
      let (s2, rest, then_) = call_all-HoldsLines calls name (written (c ∷ []) before) s1 e now in
      (
        s2,
        ap (λ r. r >>= λ s3. call_all calls s3) called ∙ rest,
        subst (λ w. HoldsLines name w s2) (written-step c calls before) then_,
      )

  -- After InitLog with the name of a file that opens, whatever the log was before, and any calls of Log, writeToLog and
  -- LogShowOnlyTag one after the other, none of them made during another, where no line to be written has a newline in it:
  -- the file has the line of each call since the last one that deletes the file, that one included, in order and each
  -- ended by a newline, and `split` at the newlines gives these lines back.
  pub init_log-written :
      (name : Text) (s : Logging) (calls : List (ℕ × LogCall))
      → opens name ≡ true
      → All (IsFree 10) (written calls [])
      → (s1 : Logging) × (content : Text) × ((init_log opens name s >>= λ s2. call_all calls s2)
          ≡ some s1)
        × (s1.files name ≡ some content)
        × (content ≡ lines 10 (written calls []))
        × (split 10 content ≡ written calls [])
  unfolding init_log set_file
  init_log-written name s calls e free =
      let s0 = record s { filename = some name; files = set_file name [] s.files } in
      let (s1, called, (f, g)) =
        call_all-HoldsLines calls name [] s0 e (refl, rw (equal_text_refl name) refl) in
      (
        s1,
        lines 10 (written calls []),
        rw e called,
        g,
        refl,
        split-lines 10 (written calls []) free,
      )
