-- ===== src/Formatter/Items.antt =====
-- sylar/log.cc: the format items, the second half of `LogFormatter::init` (which makes them from
-- `vec`), and `LogFormatter::format`. A string stream that is only appended to is its text.
use sylar_server_study.Base.{
  ℕ, Bool, true, false, Text, codes, text_eq, find, is_empty, show_nat, if◌then◌else◌, ◌==◌, List,
  [], ◌∷◌, ◌++◌, Option, none, some, ◌>>=◌,
}
use sylar_server_study.Level
use sylar_server_study.Level.{Level}
use sylar_server_study.Formatter.{Entry, scan}

-- `LogEvent`: `logger` points to the logger, `content` is what has been streamed into it. A line
-- number is not negative.
pub record Event : Type 0 where
  pub file : Text
  pub line : ℕ
  pub elapse : ℕ
  pub thread_id : ℕ
  pub fiber_id : ℕ
  pub time : ℕ
  pub logger : ℕ
  pub level : Level
  pub thread_name : Text
  pub content : Text

-- What the items ask of the C library and of boost::filesystem: a time in the local zone under a
-- `strftime` format, the path relative to the working directory, and a path's last element and the
-- elements before it.
pub record Outside : Type 0 where
  pub strftime : Text → ℕ → Text
  pub relative : Text → Text
  pub filename : Text → Text
  pub directories : Text → List Text

-- The classes derived from `FormatItem`, with what they keep.
pub data Item : Type 0 where
  message : Item
  level_name : Item
  elapse : Item
  logger_name : Item
  thread_id : Item
  fiber_id : Item
  thread_name : Item
  date_time : Text → Item
  file_name : Text → Item
  line : Item
  new_line : Item
  string : Text → Item
  tab : Item
  color_level : Item

abbrev pub default_date : Text
default_date = codes "%Y-%m-%d %H:%M:%S"

-- `s_format_items`: each letter with the class that it makes from the format.
unfoldable pub s_format_items : List (Text × (Text → Item))
s_format_items =
    (codes "m", λ fmt. message)
    ∷ (codes "p", λ fmt. level_name)
    ∷ (codes "r", λ fmt. elapse)
    ∷ (codes "c", λ fmt. logger_name)
    ∷ (codes "t", λ fmt. thread_id)
    ∷ (codes "n", λ fmt. new_line)
    ∷ (codes "d", λ fmt. date_time (if is_empty fmt then default_date else fmt))
    ∷ (codes "f", λ fmt. file_name fmt)
    ∷ (codes "l", λ fmt. line)
    ∷ (codes "T", λ fmt. tab)
    ∷ (codes "F", λ fmt. fiber_id)
    ∷ (codes "P", λ fmt. color_level)
    ∷ (codes "N", λ fmt. thread_name)
    ∷ []

abbrev pub error_format : Text → Item
error_format str = string (codes "<<error_format %" ++ (str ++ codes ">>"))

-- The item for an entry, and whether it is an error.
unfoldable pub item_of : Entry → Item × Bool
item_of e = if e.kind == 0 then (string e.str, false) else elim (find e.str s_format_items) [
  | none ↦ (error_format e.str, true)
  | some mk ↦ (mk e.fmt, false)
]

-- The loop over `vec`, from the items made so far and `m_error`.
unfoldable pub build : List Item → Bool → List Entry → List Item × Bool
build items is_error [] = (items, is_error)
build items is_error (e ∷ es) =
    let (item, bad) = item_of e in build (items ++ item ∷ []) (if bad then true else is_error) es

pub record Formatter : Type 0 where
  pub pattern : Text
  pub items : List Item
  pub is_error : Bool

-- The constructor, which calls `init`.
unfoldable pub make : Text → Formatter
make pattern =
    let parsed = scan pattern in
    let (items, is_error) = build [] parsed.is_error parsed.vec in
    record { pattern = pattern; items = items; is_error = is_error }

abbrev pub escape_code : Text → Text
escape_code t = 0x1b ∷ b'[' ∷ t

abbrev pub clear_format : Text
clear_format = escape_code (codes "0m")

-- `stdout_colors`; a null pointer for a level that the table does not have.
unfoldable pub color : Level → Option Text
color level =
    if level == Level.debug
    then some (escape_code (codes "32m") ++ escape_code (codes "1m"))
    else if level == Level.info
    then some (escape_code (codes "0m") ++ escape_code (codes "1m "))
    else if level == Level.warn
    then some (escape_code (codes "33m") ++ escape_code (codes "1m "))
    else if level == Level.error
    then some (escape_code (codes "31m") ++ escape_code (codes "1m"))
    else if level == Level.fatal
    then some (escape_code (codes "35m") ++ escape_code (codes "1m"))
    else none

-- `s.string()[0]`, which is the null byte for an empty element.
abbrev first_byte : Text → ℕ
first_byte [] = 0
first_byte (c ∷ t) = c

-- The first byte of each directory, with a slash behind all but the root.
unfoldable pub shorten : List Text → Text
unfolding text_eq
shorten [] = []
shorten (s ∷ ds) = first_byte s ∷ ((if text_eq s (codes "/") then [] else b'/' ∷ []) ++ shorten ds)

module _ (o : Outside) (names : ℕ → Text) where
  -- `FilenameFormatItem::format`
  unfoldable pub file_text : Text → Text → Text
  unfolding shorten text_eq
  file_text style file =
      if text_eq style (codes "s")
      then shorten (o.directories file) ++ o.filename file
      else if text_eq style (codes "r")
      then o.relative file
      else file

  -- What an item writes; `none` where a null pointer is streamed, which is undefined. `names` reads
  -- the name of the logger that the event points to.
  unfoldable pub item_text : Item → Event → Option Text
  unfolding file_text Level.to_string color
  item_text message e = some e.content
  item_text level_name e = some (Level.to_string e.level)
  item_text elapse e = some (show_nat e.elapse)
  item_text logger_name e = some (names e.logger)
  item_text thread_id e = some (show_nat e.thread_id)
  item_text fiber_id e = some (show_nat e.fiber_id)
  item_text thread_name e = some e.thread_name
  item_text (date_time f) e = some (o.strftime f e.time)
  item_text (file_name style) e = some (file_text style e.file)
  item_text line e = some (show_nat e.line)
  item_text new_line e = some (b'\n' ∷ [])
  item_text (string t) e = some t
  item_text tab e = some (b'\t' ∷ [])
  item_text color_level e = do
    c ← color e.level
    some (c ++ (Level.to_string e.level ++ clear_format))

  unfoldable pub items_text : List Item → Event → Option Text
  items_text [] e = some []
  items_text (i ∷ is) e = do t ← item_text i e; ts ← items_text is e; some (t ++ ts)

  -- `LogFormatter::format`
  unfoldable pub format : Formatter → Event → Option Text
  unfolding items_text
  format f e = items_text f.items e
