-- ===== src/Logging/Tests.antt =====
-- A log of two threads.
use gitrpc.Prelude.{
  ℕ, ◌≡◌, refl, sym, subst, Bool, true, false, some, none, List, [], ◌∷◌, All, codes, ◌>>=◌, arith,
}
use gitrpc.Utils.{split, equal_text}
use gitrpc.Utils.Split.{lines, IsFree}
use gitrpc.Logging.{
  Text, Logging, init_log, mono_log, put_line, opened_content, set_file, to_string, to_digits,
  strrchr, final_tag, log_line, log_entry,
}
use gitrpc.Logging.File.{LogCall, write_call, log_call, call_all, written, init_log-written}

abbrev any_name : Text → Bool
any_name name = true

abbrev name : Text
name = codes "gitrpc.log"

abbrev calls : List (ℕ × LogCall)
calls =
    (31, log_call (codes "src/main.cpp") 9 (codes "hi"))
    ∷ (7, write_call (codes "up") false true)
    ∷ []

abbrev before : Logging
before = record { tag_to_show = codes "All"; filename = none; files = λ other. none }

calls-written :
    written any_name (codes "git") calls []
    ≡ codes "[31;git;main.cpp:9] hi" ∷ codes "[7;git;All] up" ∷ []
unfolding log_entry log_line final_tag strrchr to_string to_digits
calls-written = refl

no_newlines : All (IsFree 10) (codes "[31;git;main.cpp:9] hi" ∷ codes "[7;git;All] up" ∷ [])
no_newlines = omega arith

calls-IsFree : All (IsFree 10) (written any_name (codes "git") calls [])
calls-IsFree = subst (All (IsFree 10)) (sym calls-written) no_newlines

init_log-written_example :
    (s1 : Logging) × (content : Text) × ((init_log any_name name before >>= λ s2.
    call_all any_name (codes "git") calls s2)
      ≡ some s1)
    × (s1.files name ≡ some content)
    × (content ≡ lines 10 (written any_name (codes "git") calls []))
    × (split 10 content ≡ written any_name (codes "git") calls [])
init_log-written_example =
    init_log-written any_name (codes "git") name before calls refl calls-IsFree

mono_log_test :
    (mono_log any_name (codes "b") false (mono_log any_name (codes "a") true before)).files
      (codes "monologue.txt")
    ≡ some (97 ∷ 10 ∷ 98 ∷ 10 ∷ [])
unfolding mono_log put_line opened_content set_file equal_text
mono_log_test = refl
