-- ===== src/Server/Logger/Kept.antt =====
-- What Server/logger.cpp does with the texts in its files, whatever the disk refuses.
use Prim.Native.String.{◌++◌ as text_append}
use text.Mathlib.TextLemmas as Texts
use messenger_walkie_talkie.Prelude.{
  ℕ, String, ◌≡◌, refl, sym, ap, subst, ◌∙◌, Bool, true, false, not, ◌||◌, List, [], ◌∷◌, some,
  if◌then◌else◌, ltb, arith, eq_iff, ◌==◌, string_eq, Bool-cases, Option-cases, inl, inr,
}
use messenger_walkie_talkie.Prelude.Dict.{get, put, remove, get-put, get-put_self, get-remove}
use messenger_walkie_talkie.Server.Logger.{
  LogLevel, Line, Files, Logger, Disk, log_name, max_bytes, text_or_empty, exists, open_log, rename,
  start, stop, log, line_text, archive_name, rotate_if_needed, append_line, write_now, deliver,
}

-- Every text stands at the beginning of a file.
abbrev pub IsKept : Files → Files → Type 0
IsKept before after =
    (name text : String)
    → get name before ≡ some text
    → (other : String) × (more : String) × (get other after ≡ some (text_append text more))

IsKept-refl : (files : Files) → IsKept files files
IsKept-refl files name text found = (name, "", found ∙ ap some (sym (Texts.append-nil text)))

IsKept-trans : (a b c : Files) → IsKept a b → IsKept b c → IsKept a c
IsKept-trans a b c first second name text found =
    let (other, more, there) = first name text found in
    let (last, rest, at_last) = second other (text_append text more) there in
    (last, text_append more rest, at_last ∙ ap some (Texts.append_assoc text more rest))

appended-IsKept :
    (more : String) (files : Files)
    → IsKept files (put log_name (text_append (text_or_empty (get log_name files)) more) files)
appended-IsKept more files name text found =
    let all = text_append (text_or_empty (get log_name files)) more in
    elim (Bool-cases (log_name == name)) [
      | inl same ↦ (
        name,
        more,
        ground (arith, get-put log_name name all files, eq_iff log_name name, found, same),
      )
      | inr other ↦ (
        name,
        "",
        get-put log_name name all files ∙ rw other (found ∙ ap some (sym (Texts.append-nil text))),
      )
    ]

rename-IsKept :
    (disk : Disk) (from to : String) (files : Files) → IsKept files (rename disk from to files)
unfolding rename
rename-IsKept disk from to files = elim (Bool-cases (not disk.renames || exists to files)) [
  | inl refused ↦ rw refused (IsKept-refl files)
  | inr free ↦ rw free (elim (Option-cases (get from files)) [
    | inl absent ↦ rw absent (IsKept-refl files)
    | inr (moved, there) ↦ rw there (λ name text found.
        let kept = text_append text "" in
        let whole = Texts.append-nil text in
        elim (Bool-cases (from == name)) [
          | inl same ↦ (
            to,
            "",
            ground (
              arith,
              get-put_self to moved (remove from files),
              eq_iff from name,
              found,
              there,
              same,
              whole,
            ),
          )
          | inr other ↦ (
            name,
            "",
            ground (
              arith,
              get-put to name moved (remove from files),
              get-remove from name files,
              eq_iff to name,
              found,
              free,
              other,
              whole,
            ),
          )
        ])
  ])
]

-- A branch is taken.
IsKept-if :
    (files : Files) (test : Bool) (a b : Logger)
    → IsKept files a.files
    → IsKept files b.files
    → IsKept files (if test then a else b).files
IsKept-if files true a b first second = first
IsKept-if files false a b first second = second

open_log-IsKept : (disk : Disk) (l : Logger) → IsKept l.files (open_log disk l).files
unfolding open_log
open_log-IsKept disk l =
    let made = put log_name (text_or_empty (get log_name l.files)) l.files in
    IsKept-if l.files disk.opens (record l { is_open = true; files = made })
      (record l { is_open = false })
      (subst (λ text. IsKept l.files (put log_name text l.files))
        (Texts.append-nil (text_or_empty (get log_name l.files))) (appended-IsKept "" l.files))
      (IsKept-refl l.files)

start-IsKept : (disk : Disk) (l : Logger) → IsKept l.files (start disk l).files
unfolding start
start-IsKept disk l =
    IsKept-if l.files l.started l (record (open_log disk l) { started = true })
      (IsKept-refl l.files) (open_log-IsKept disk l)

stop-IsKept : (l : Logger) → IsKept l.files (stop l).files
unfolding stop
stop-IsKept l =
    IsKept-if l.files (not l.started) l (record l { started = false; is_open = false })
      (IsKept-refl l.files) (IsKept-refl l.files)

-- What happens to the logger: calls of its methods, and its thread, which makes the call that waits.
pub data Call : Type 0 where
  starts : Disk → Call
  stops : Call
  logs : Disk → LogLevel → String → Call
  delivers : Disk → Call

module _ (number : ℕ → String) (size : String → ℕ) where
  rotate_if_needed-IsKept :
      (disk : Disk) (l : Logger) → IsKept l.files (rotate_if_needed number size disk l).files
  unfolding rotate_if_needed
  rotate_if_needed-IsKept disk l =
      let archive = archive_name number size disk.now l.files in
      let renamed = rename disk log_name archive l.files in
      let closed : Logger = record l { is_open = false; files = renamed } in
      IsKept-if l.files (ltb (size (text_or_empty (get log_name l.files))) max_bytes) l
        (open_log disk closed) (IsKept-refl l.files)
        (IsKept-trans l.files renamed (open_log disk closed).files
          (rename-IsKept disk log_name archive l.files) (open_log-IsKept disk closed))

  append_line-IsKept :
      (line : Line) (l : Logger) → IsKept l.files (append_line number size line l).files
  unfolding append_line
  append_line-IsKept line l =
      let all = text_append (text_or_empty (get log_name l.files)) (line_text line) in
      IsKept-if l.files l.is_open (record l { files = put log_name all l.files }) l
        (appended-IsKept (line_text line) l.files) (IsKept-refl l.files)

  write_now-IsKept :
      (disk : Disk) (line : Line) (l : Logger)
      → IsKept l.files (write_now number size disk line l).files
  unfolding write_now
  write_now-IsKept disk line l =
      let rotated = rotate_if_needed number size disk l in
      let written = append_line number size line rotated in
      IsKept-if l.files (not l.started || not l.is_open) l written (IsKept-refl l.files) (
        IsKept-trans l.files rotated.files written.files (rotate_if_needed-IsKept disk l)
          (append_line-IsKept line rotated))

  deliver-IsKept :
      (disk : Disk) (waiting : List Line) (l : Logger)
      → l.waiting ≡ waiting
      → IsKept l.files (deliver number size disk l).files
  unfolding deliver
  deliver-IsKept disk [] l empty = rw empty (IsKept-refl l.files)
  deliver-IsKept disk (line ∷ lines) l more =
      rw more (write_now-IsKept disk line (record l { waiting = lines }))

  unfoldable pub call : Call → Logger → Logger
  call (starts disk) l = start disk l
  call stops l = stop l
  call (logs disk level message) l = log disk level message l
  call (delivers disk) l = deliver number size disk l

  unfoldable pub call_all : List Call → Logger → Logger
  call_all [] l = l
  call_all (c ∷ cs) l = call_all cs (call c l)

  call-IsKept : (c : Call) (l : Logger) → IsKept l.files (call c l).files
  unfolding call log
  call-IsKept (starts disk) l = start-IsKept disk l
  call-IsKept stops l = stop-IsKept l
  call-IsKept (logs disk level message) l = start-IsKept disk l
  call-IsKept (delivers disk) l = deliver-IsKept disk l.waiting l refl

  -- Over any calls of the logger's methods and any work of its thread, whatever the disk refuses and however often
  -- the log is rotated, nothing is lost that was once in a file: its text stands, from then on, at the beginning of
  -- a file of the directory.
  pub call_all-IsKept : (cs : List Call) (l : Logger) → IsKept l.files (call_all cs l).files
  unfolding call_all
  call_all-IsKept [] l = IsKept-refl l.files
  call_all-IsKept (c ∷ cs) l =
      IsKept-trans l.files (call c l).files (call_all cs (call c l)).files (call-IsKept c l)
        (call_all-IsKept cs (call c l))
