-- ===== src/Tests/Logs.antt =====
-- The log of the server at concrete inputs. A number is written in strokes, and a letter is as large
-- as a full log, so that the third line makes the log move.
use Prim.Native.String.{count, ◌++◌ as text_append}
use text.Mathlib.TextLemmas as Texts
use messenger_walkie_talkie.Prelude.{
  ℕ, zero, suc, ◌+◌, ◌*◌, ◌<◌, String, ◌≡◌, refl, ap, ◌∙◌, sym, true, List, [], ◌∷◌, arith,
}
use messenger_walkie_talkie.Server.Logger.{
  info, warning, Line, Logger, Disk, max_bytes, line_text, write_now,
}
use messenger_walkie_talkie.Server.Logger.Kept.{
  Call, starts, logs, delivers, stops, call_all, IsKept, call_all-IsKept,
}
use messenger_walkie_talkie.Server.Logger.Written.{log_text, IsWritten, write_now-IsWritten}

abbrev strokes : ℕ → String
strokes zero = ""
strokes (suc n) = text_append "i" (strokes n)

abbrev bytes : String → ℕ
bytes text = 5242880 * count text

count-strokes : (n : ℕ) → count (strokes n) ≡ n
count-strokes zero = refl
count-strokes (suc n) =
    let added : count (strokes (suc n)) ≡ 1 + count (strokes n) =
      Texts.length-append "i" (strokes n) in
    ground (arith, added, count-strokes n)

strokes-inj : (m n : ℕ) → strokes m ≡ strokes n → m ≡ n
strokes-inj m n same = sym (count-strokes m) ∙ ap count same ∙ count-strokes n

bytes-append : (a b : String) → bytes (text_append a b) ≡ bytes a + bytes b
bytes-append a b = let counted = Texts.length-append a b in ground (arith, counted)

abbrev disk : Disk
disk = record { opens = true; renames = true; now = "20260101" }

-- The archive of this time is there.
abbrev full_log : Logger
full_log = record {
  files = ("logs/server.log", "x") ∷ ("logs/server_20260101.log", "y") ∷ [];
  is_open = true;
  started = true;
  waiting = [];
}

abbrev hello : Line
hello = record { level = warning; message = "hello"; stamp = "2026-01-01 10:00:00" }

write_now-IsWritten_example :
    (bytes (log_text (write_now strokes bytes disk hello full_log).files)
      < max_bytes + bytes (line_text hello))
    × IsWritten strokes bytes hello full_log.files
        (write_now strokes bytes disk hello full_log).files
write_now-IsWritten_example =
    write_now-IsWritten strokes bytes strokes-inj bytes-append disk hello full_log refl refl refl
      refl

abbrev calls : List Call
calls = logs disk info "hello" ∷ delivers disk ∷ stops ∷ starts disk ∷ []

call_all-IsKept_example : IsKept full_log.files (call_all strokes bytes calls full_log).files
call_all-IsKept_example = call_all-IsKept strokes bytes calls full_log
