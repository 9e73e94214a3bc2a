-- ===== src/Logger/Files.antt =====
-- `FileLogAppender::log` on the files.
use sylar_server_study.Base.{
  ℕ, Bool, true, ◌&&◌, Text, text_eq, text_eq_iff, assign, find-assign, if◌then◌else◌, ◌==◌, leb,
  List, [], ◌++◌, some, ◌≡◌, ◌∙◌, arith, append-nil,
}
use sylar_server_study.Formatter.Items.{Event, Outside}
use sylar_server_study.Logger.{FileSink, Appender, Store, content}
use sylar_server_study.Logger.Log.{formatted, reopen_each_second, write, file_log}

content-assign :
    (k j t : Text) (files : List (Text × Text))
    → content j (assign k t files) ≡ (if text_eq k j then t else content j files)
content-assign k j t files = ground (arith, find-assign k j t files)

module _ (o : Outside) (openable : Text → Bool) (now : ℕ) where
  -- Whether the stream is good when the text is written: in a new second the file is opened again.
  abbrev pub writable : FileSink → Bool
  writable x = if now == x.last_time then x.is_open else openable x.filename

  content-reopen :
      (files : List (Text × Text)) (x : FileSink) (j : Text)
      → content j (reopen_each_second o openable now files x).0 ≡ content j files
  unfolding reopen_each_second
  content-reopen files x j = ground (
    arith,
    content-assign x.filename j (content x.filename files) files,
    text_eq_iff x.filename j,
  )

  reopen-writable :
      (files : List (Text × Text)) (x : FileSink)
      → ((reopen_each_second o openable now files x).1.is_open ≡ writable x)
        × ((reopen_each_second o openable now files x).1.filename ≡ x.filename)
  unfolding reopen_each_second
  reopen-writable files x = ground arith

  content-write :
      (files : List (Text × Text)) (x : FileSink) (w j : Text)
      → content j (write o openable now files x w)
        ≡ content j files ++ (if text_eq x.filename j && x.is_open then w else [])
  content-write files x w j = ground (
    arith,
    content-assign x.filename j (content x.filename files ++ w) files,
    text_eq_iff x.filename j,
    append-nil (content j files),
  )

  -- An event that passes the threshold of a file appender is appended to its file, if the stream is
  -- good after the reopening of a new second; no other file changes, and nothing that was in the file
  -- is lost.
  pub content-file_log :
      (s t : Store) (a : ℕ) (x : Appender) (sink : FileSink) (e : Event) (w j : Text)
      → leb x.level e.level ≡ true
      → formatted o openable now s x e ≡ some w
      → file_log o openable now s a x sink e ≡ some t
      → content j t.files
        ≡ content j s.files ++ (if text_eq sink.filename j && writable sink then w else [])
  unfolding file_log
  content-file_log s t a x sink e w j pass d h =
      let r = reopen_each_second o openable now s.files sink in
      let written : t.files ≡ write o openable now r.0 r.1 w = ground arith in
      let good = reopen-writable s.files sink in
      rw written (content-write r.0 r.1 w j ∙ rw (good.0, good.1, content-reopen s.files sink j))
