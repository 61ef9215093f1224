-- ===== src/Server/Logger/Written.antt =====
-- A line that Server/logger.cpp writes, where the disk does what it is asked.
use Prim.Native.String.{◌++◌ as text_append}
use text.Mathlib.TextLemmas as Texts
use messenger_walkie_talkie.Prelude.{
  ℕ, ◌+◌, ◌<◌, String, ◌≡◌, ◌⊎◌, refl, sym, ap, ◌∙◌, Bool, true, false, not, ◌||◌, some,
  if◌then◌else◌, ltb, arith, eq_iff, ◌==◌, string_eq, Bool-cases, Option-cases, inl, inr,
}
use messenger_walkie_talkie.Prelude.Dict.{get, put, remove, get-put, get-put_self, get-remove}
use messenger_walkie_talkie.Server.Logger.{
  Line, Files, Logger, Disk, log_name, max_bytes, text_or_empty, exists, open_log, rename,
  line_text, archive_name, rotate_if_needed, append_line, write_now,
}
use messenger_walkie_talkie.Server.Logger.Rotation.{archive_name_is_free}

-- The text of the log.
abbrev pub log_text : Files → String
log_text files = text_or_empty (get log_name files)

-- The log has moved to the archive, and an empty one is in its place.
abbrev moved : String → Files → Files
moved archive files =
    let left = put archive (log_text files) (remove log_name files) in
    put log_name (log_text left) left

moved-log :
    (archive : String) (files : Files)
    → (log_name == archive) ≡ false
    → get log_name (moved archive files) ≡ some ""
moved-log archive files apart =
    let left = put archive (log_text files) (remove log_name files) in
    ground (
      arith,
      get-put_self log_name (log_text left) left,
      get-put archive log_name (log_text files) (remove log_name files),
      get-remove log_name log_name files,
      eq_iff log_name archive,
      eq_iff archive log_name,
      eq_iff log_name log_name,
    )

moved-archive :
    (archive : String) (files : Files)
    → (log_name == archive) ≡ false
    → get archive (moved archive files) ≡ some (log_text files)
moved-archive archive files apart =
    let left = put archive (log_text files) (remove log_name files) in
    get-put log_name archive (log_text left) left
    ∙ rw apart (get-put_self archive (log_text files) (remove log_name files))

runs :
    (started opened : Bool) (a b : Logger)
    → started ≡ true
    → opened ≡ true
    → (if not started || not opened then a else b) ≡ b
runs started opened a b s o = rw (s, o) refl

module _ (number : ℕ → String) (size : String → ℕ) where
  rotated_files :
      (disk : Disk) (l : Logger)
      → disk.opens ≡ true
      → disk.renames ≡ true
      → ltb (size (log_text l.files)) max_bytes ≡ false
      → exists log_name l.files ≡ true
      → exists (archive_name number size disk.now l.files) l.files ≡ false
      → rotate_if_needed number size disk l ≡ record l {
        is_open = true;
        files = moved (archive_name number size disk.now l.files) l.files;
      }
  unfolding rotate_if_needed open_log rename
  rotated_files disk l opens renames large there free =
      let archive = archive_name number size disk.now l.files in
      elim (Option-cases (get log_name l.files)) [
        | inl absent ↦ absurd (ground (arith, there, absent))
        | inr (text, found) ↦ rw (large, opens, renames, free, found) refl
      ]

  -- Where the line went, and what became of the old log.
  abbrev pub IsWritten : Line → Files → Files → Type 0
  IsWritten line before after =
      (get log_name after ≡ some (text_append (log_text before) (line_text line)))
      ⊎ ((archive : String) × (exists archive before ≡ false)
          × (get archive after ≡ some (log_text before))
          × (get log_name after ≡ some (line_text line)))

  write_now-small :
      (disk : Disk) (line : Line) (l : Logger)
      → l.started ≡ true
      → l.is_open ≡ true
      → ltb (size (log_text l.files)) max_bytes ≡ true
      → (write_now number size disk line l).files
        ≡ put log_name (text_append (log_text l.files) (line_text line)) l.files
  unfolding write_now rotate_if_needed append_line
  write_now-small disk line l started opened small = rw (started, opened, small) refl

  write_now-large :
      (disk : Disk) (line : Line) (l : Logger) (after : Files)
      → l.started ≡ true
      → l.is_open ≡ true
      → rotate_if_needed number size disk l ≡ record l { is_open = true; files = after }
      → (write_now number size disk line l).files
        ≡ put log_name (text_append (log_text after) (line_text line)) after
  unfolding write_now append_line
  write_now-large disk line l after started opened rotated =
      ap (λ (r : Logger). r.files)
        (runs l.started l.is_open l
            (append_line number size line (rotate_if_needed number size disk l)) started opened
          ∙ ap (append_line number size line) rotated)

  module _ (number-inj : (m n : ℕ) → number m ≡ number n → m ≡ n)
      (size-append : (a b : String) → size (text_append a b) ≡ size a + size b) where
    size-empty : size "" ≡ 0
    size-empty =
        let doubled : size "" ≡ size "" + size "" =
          ap size (sym (Texts.append-nil "")) ∙ size-append "" "" in
        ground (arith, doubled)

    large-exists :
        (files : Files)
        → ltb (size (log_text files)) max_bytes ≡ false
        → exists log_name files ≡ true
    large-exists files large = ground (arith, size-empty, large)

    rotated-IsWritten :
        (disk : Disk) (line : Line) (l : Logger)
        → disk.opens ≡ true
        → disk.renames ≡ true
        → l.started ≡ true
        → l.is_open ≡ true
        → ltb (size (log_text l.files)) max_bytes ≡ false
        → (archive : String) × (exists archive l.files ≡ false)
          × (get archive (write_now number size disk line l).files ≡ some (log_text l.files))
          × (get log_name (write_now number size disk line l).files ≡ some (line_text line))
    rotated-IsWritten disk line l opens renames started opened large =
        let archive = archive_name number size disk.now l.files in
        let free = archive_name_is_free number size disk.now number-inj l.files in
        let there = large-exists l.files large in
        let after = moved archive l.files in
        let apart : (log_name == archive) ≡ false =
          ground (arith, free, there, eq_iff log_name archive) in
        let all = text_append (log_text after) (line_text line) in
        let written : (write_now number size disk line l).files ≡ put log_name all after =
          write_now-large disk line l after started opened
            (rotated_files disk l opens renames large there free) in
        let alone : all ≡ line_text line =
          ap (λ o. text_append (text_or_empty o) (line_text line)) (moved-log archive l.files apart)
          ∙ Texts.nil-append (line_text line) in
        (
          archive,
          free,
          ap (get archive) written
              ∙ get-put log_name archive all after
              ∙ rw apart (moved-archive archive l.files apart),
          ap (get log_name) written ∙ get-put_self log_name all after ∙ ap some alone,
        )

    -- Where the file can be opened and renamed, decimals tell numbers apart and the bytes of two texts add up, a
    -- line that the thread of a running logger writes to its open log leaves that file with fewer bytes than 5 MiB
    -- and the line. It is behind the text of the log; or it is alone in the log, and that text is as a whole in a
    -- file whose name no file had.
    pub write_now-IsWritten :
        (disk : Disk) (line : Line) (l : Logger)
        → disk.opens ≡ true
        → disk.renames ≡ true
        → l.started ≡ true
        → l.is_open ≡ true
        → (size (log_text (write_now number size disk line l).files)
            < max_bytes + size (line_text line))
          × IsWritten line l.files (write_now number size disk line l).files
    write_now-IsWritten disk line l opens renames started opened =
        let after = (write_now number size disk line l).files in
        elim (Bool-cases (ltb (size (log_text l.files)) max_bytes)) [
          | inl small ↦
              let all = text_append (log_text l.files) (line_text line) in
              let here : get log_name after ≡ some all =
                ap (get log_name) (write_now-small disk line l started opened small)
                ∙ get-put_self log_name all l.files in
              let bytes =
                ap (λ o. size (text_or_empty o)) here
                ∙ size-append (log_text l.files) (line_text line) in
              (ground (arith, bytes, small), inl here)
          | inr large ↦
              let w = rotated-IsWritten disk line l opens renames started opened large in
              let bytes = ap (λ o. size (text_or_empty o)) w.3 in (ground (arith, bytes), inr w)
        ]
