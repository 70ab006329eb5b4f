-- ===== src/Logs/Lines.antt =====
-- The texts of the log viewer: the level of a line, paths and names of remote files, of
-- web/src/pages/LogsPage.tsx.
pub mod Paths
use dbtabase_workbench.Common.{
  ℕ, ◌+◌, ◌*◌, ◌/◌, ◌%◌, Bool, true, false, not, ◌&&◌, ◌||◌, Option, none, some, List, [], ◌∷◌,
  ◌++◌, Text, text, ◌===◌, leb, truthy, trim, join, filter, any, map, ascii_lower, if◌then◌else◌,
  CaseMapping,
}
use dbtabase_workbench.Words.{has_word}
use dbtabase_workbench.Redis.Split.{split}
use dbtabase_workbench.Table.Value.{includes}

-- `detectLineLevel`: the first of these levels that the line has as a word.
unfoldable pub detect_line_level : Text → Text
detect_line_level line =
    if has_word (text "ERROR") true line
    then text "ERROR"
    else if has_word (text "WARN") true line || has_word (text "WARNING") true line
    then text "WARN"
    else if has_word (text "INFO") true line
    then text "INFO"
    else if has_word (text "DEBUG") true line
    then text "DEBUG"
    else if has_word (text "TRACE") true line
    then text "TRACE"
    else text "UNKNOWN"

-- `parts.pop()`.
unfoldable pub but_last : List Text → List Text
but_last [] = []
but_last (p ∷ []) = []
but_last (p ∷ q ∷ ps) = p ∷ but_last (q ∷ ps)

abbrev pub slash : ℕ
slash = 47

unfoldable pub parent_remote_path : Text → Text
unfolding but_last
parent_remote_path value = slash ∷ join (slash ∷ []) (but_last (filter truthy (split slash value)))

-- `/\.(log|txt|out|err)$/i`.
unfoldable pub ends_with : Text → Text → Bool
ends_with suffix [] = suffix === []
ends_with suffix (c ∷ s) = suffix === (c ∷ s) || ends_with suffix s

unfoldable pub is_log_file : Text → Bool
unfolding ends_with
is_log_file name =
    any (λ suffix. ends_with suffix (map ascii_lower name))
      (text ".log" ∷ text ".txt" ∷ text ".out" ∷ text ".err" ∷ [])

pub data RemoteType : Type 0 where
  file directory other : RemoteType

pub record RemoteLogEntry : Type 0 where
  pub name : Text
  pub path : Text
  pub type : RemoteType
  pub size : ℕ
  pub modified_at : ℕ

abbrev pub is_file : RemoteType → Bool
is_file file = true
is_file directory = false
is_file other = false

abbrev pub is_directory : RemoteType → Bool
is_directory directory = true
is_directory file = false
is_directory other = false

unfoldable pub visible_remote_entries : List RemoteLogEntry → List RemoteLogEntry
visible_remote_entries = filter (λ e. is_directory e.type || is_file e.type && is_log_file e.name)

pub record TailLine : Type 0 where
  pub id : ℕ
  pub text : Text
  pub level : Text

unfoldable pub visible_tail_lines : CaseMapping → Text → List TailLine → List TailLine
visible_tail_lines letters tail_filter lines =
    let keyword = letters.to_lower_case (trim tail_filter) in
    if truthy keyword
    then filter (λ l. includes keyword (letters.to_lower_case l.text)) lines
    else lines
