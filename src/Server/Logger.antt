-- ===== src/Server/Logger.antt =====
-- Server/logger.h and Server/logger.cpp: the log file, its rotation, and the lines that wait for the
-- logger's thread. The files of the directory logs/ are an association list of names and texts. The
-- directory is there; whether QFile::open and QFile::rename succeed is an argument of each call, and
-- rename gives no file the name of another. The suffix of a name is not wrapped: it is at most the
-- number of files, since no two of them have one name. The line ends are those of Unix. A time of
-- QDateTime::toString is an argument; `size` is the number of bytes of a text in UTF-8.
pub mod Rotation
pub mod Kept
pub mod Written
use Prim.Native.String.{◌++◌ as text_append}
use messenger_walkie_talkie.Prelude.{
  ℕ, zero, suc, ◌*◌, String, Bool, true, false, not, ◌&&◌, ◌||◌, List, [], ◌∷◌, ◌++◌, Option, none,
  some, if◌then◌else◌, ltb, length, string_eq,
}
use messenger_walkie_talkie.Prelude.Dict.{get, put, remove}

pub data LogLevel : Type 0 where
  info warning error : LogLevel

-- A call of writeNow that waits in the queue of the thread, with the text of its timestamp.
pub record Line : Type 0 where
  pub level : LogLevel
  pub message : String
  pub stamp : String

abbrev pub Files : Type 0
Files = List (String × String)

pub record Logger : Type 0 where
  pub files : Files
  pub is_open : Bool
  pub started : Bool
  pub waiting : List Line

-- What the file system does in one call, and the text of the clock, in the format of that call.
pub record Disk : Type 0 where
  pub opens : Bool
  pub renames : Bool
  pub now : String

abbrev pub log_name : String
log_name = "logs/server.log"

abbrev pub max_bytes : ℕ
max_bytes = 5 * 1024 * 1024

unfoldable pub level_name : LogLevel → String
level_name info = "INFO"
level_name warning = "WARNING"
level_name error = "ERROR"

abbrev pub text_or_empty : Option String → String
text_or_empty none = ""
text_or_empty (some text) = text

abbrev pub exists : String → Files → Bool
exists name files = elim (get name files) [ none ↦ false | some text ↦ true ]

-- QFile::open of the log to append, which makes the file where it is not there.
unfoldable pub open_log : Disk → Logger → Logger
open_log disk l =
    if disk.opens
    then record l {
      is_open = true;
      files = put log_name (text_or_empty (get log_name l.files)) l.files;
    }
    else record l { is_open = false }

-- QFile::rename
unfoldable pub rename : Disk → String → String → Files → Files
rename disk from to files =
    if not disk.renames || exists to files
    then files
    else elim (get from files) [ none ↦ files | some text ↦ put to text (remove from files) ]

unfoldable pub start : Disk → Logger → Logger
unfolding open_log
start disk l = if l.started then l else record (open_log disk l) { started = true }

unfoldable pub stop : Logger → Logger
stop l = if not l.started then l else record l { started = false; is_open = false }

unfoldable pub log : Disk → LogLevel → String → Logger → Logger
unfolding start
log disk level message l =
    let line : Line = record { level = level; message = message; stamp = disk.now } in
    let r = start disk l in record r { waiting = r.waiting ++ line ∷ [] }

unfoldable pub line_text : Line → String
unfolding level_name
line_text line = text_append "[" (
    text_append line.stamp (
      text_append "] ["
        (text_append (level_name line.level) (text_append "] " (text_append line.message "\n")))))

module _ (number : ℕ → String) (size : String → ℕ) where
  abbrev pub rotated_name : String → String
  rotated_name now = text_append "logs/server_" (text_append now ".log")

  abbrev pub numbered_name : String → ℕ → String
  numbered_name now suffix =
      text_append "logs/server_"
        (text_append now (text_append "_" (text_append (number suffix) ".log")))

  -- The loop of rotateIfNeeded; `suffix` is the one of the next name.
  unfoldable pub free_name : ℕ → String → String → ℕ → Files → String
  free_name zero now name suffix files = name
  free_name (suc fuel) now name suffix files =
      let next = free_name fuel now (numbered_name now suffix) (suc suffix) files in
      if exists name files then next else name

  -- More rounds than there are files.
  abbrev pub archive_name : String → Files → String
  archive_name now files = free_name (suc (length files)) now (rotated_name now) 1 files

  unfoldable pub rotate_if_needed : Disk → Logger → Logger
  unfolding open_log rename free_name
  rotate_if_needed disk l =
      if ltb (size (text_or_empty (get log_name l.files))) max_bytes
      then l
      else open_log disk (record l {
        is_open = false;
        files = rename disk log_name (archive_name disk.now l.files) l.files;
      })

  -- The text that the stream writes to the file, if it is open.
  unfoldable pub append_line : Line → Logger → Logger
  unfolding line_text
  append_line line l =
      if l.is_open
      then record l {
        files =
            put log_name (text_append (text_or_empty (get log_name l.files)) (line_text line))
              l.files;
      }
      else l

  unfoldable pub write_now : Disk → Line → Logger → Logger
  unfolding rotate_if_needed append_line
  write_now disk line l =
      if not l.started || not l.is_open then l else append_line line (rotate_if_needed disk l)

  -- The thread makes the call that waits first.
  unfoldable pub deliver : Disk → Logger → Logger
  unfolding write_now
  deliver disk l = elim l.waiting [
    | [] ↦ l
    | line ∷ lines ↦ write_now disk line (record l { waiting = lines })
  ]
