-- ===== src/Memory.antt =====
-- The memory index of a session and its place in the system prompt (src/memory.ts). Here a text is
-- the list of its code points, as `for (const character of value)` walks it.
pub mod Bytes
pub mod Markup
pub mod Reading
mod Tests
use pi_recipes.Prelude.{
  ℕ, zero, suc, ◌+◌, ◌-◌, min, Text, codes, Bool, true, false, not, ◌&&◌, ◌||◌, List, [], ◌∷◌, ◌++◌,
  Option, none, some, length, take, drop, if◌then◌else◌, ◌==◌, ltb, leb,
}
use pi_recipes.Prelude.Texts.{trim, truthy, join}
use mathlib.Core.List.{reverse}

abbrev pub default_memory_index_max_lines : ℕ
default_memory_index_max_lines = 200

abbrev pub default_memory_index_max_bytes : ℕ
default_memory_index_max_bytes = 25000

-- A limit that a host gives: a natural number, or any other number.
pub data LimitValue : Type 0 where
  natural : ℕ → LimitValue
  not_natural : LimitValue

-- `none` is MemoryContextConfigError.
unfoldable pub bounded_limit : Option LimitValue → ℕ → Option ℕ
bounded_limit none maximum = if ltb maximum 1 then none else some maximum
bounded_limit (some not_natural) maximum = none
bounded_limit (some (natural n)) maximum = if ltb n 1 || ltb maximum n then none else some n

-- The loop of `readBoundedFile`: at most `size` bytes of the file, in reads that start at `offset`
-- and return at most `chunk offset` bytes.
unfoldable pub read_loop : ℕ → (ℕ → ℕ) → List ℕ → ℕ → ℕ → List ℕ
read_loop zero chunk file size offset = []
read_loop (suc fuel) chunk file size offset =
    let got = take (min (chunk offset) (size - offset)) (drop offset file) in
    let more = got ++ read_loop fuel chunk file size (offset + length got) in
    if ltb offset size then (if length got == 0 then [] else more) else []

-- The bytes that are kept, and whether there were more; `decode` stands for StringDecoder.
unfoldable pub read_bounded_file : (List ℕ → Text) → (ℕ → ℕ) → List ℕ → ℕ → Text × Bool
read_bounded_file decode chunk file max_bytes =
    let bytes = read_loop (max_bytes + 2) chunk file (max_bytes + 1) 0 in
    (decode (take max_bytes bytes), ltb max_bytes (length bytes))

cons_first : ℕ → List Text → List Text
cons_first c [] = (c ∷ []) ∷ []
cons_first c (line ∷ lines) = (c ∷ line) ∷ lines

-- content.split(/\r\n|\r|\n/); the flag says that a carriage return stands before.
unfoldable pub split_lines : Bool → Text → List Text
unfolding cons_first
split_lines after_cr [] = [] ∷ []
split_lines after_cr (c ∷ s) =
    let rest = split_lines (c == 13) s in
    if after_cr && c == 10
    then rest
    else if c == 10 || c == 13
    then [] ∷ rest
    else cons_first c rest

-- if (lines.at(-1) === "") lines.pop();
unfoldable pub pop_empty : List Text → List Text
pop_empty [] = []
pop_empty ([] ∷ []) = []
pop_empty (line ∷ lines) = line ∷ pop_empty lines

unfoldable pub bound_lines : Text → ℕ → Text × Bool
bound_lines content max_lines =
    let lines = pop_empty (split_lines false content) in
    (join (codes "\n") (take max_lines lines), ltb max_lines (length lines))

pub record MemoryIndex : Type 0 where
  pub file_path : Text
  pub base_dir : Text
  pub content : Text
  pub max_lines : LimitValue
  pub max_bytes : LimitValue
  pub truncated : Bool

pub data Loaded : Type 0 where
  config_error : Loaded
  no_memory : Loaded
  warning : Text → Loaded
  memory : MemoryIndex → Loaded

-- What opening the file came to.
pub data FileState : Type 0 where
  bytes : List ℕ → FileState
  missing : FileState
  unreadable : FileState

load_bytes : (List ℕ → Text) → (ℕ → ℕ) → (Text → Text) → Text → List ℕ → ℕ → ℕ → Loaded
load_bytes decode chunk dirname path file lines size =
    let read = read_bounded_file decode chunk file size in
    let bounded = bound_lines read.0 lines in
    let content = trim bounded.0 in
    if not (truthy content)
    then no_memory
    else memory (record {
      file_path = path;
      base_dir = dirname path;
      content = content;
      max_lines = natural lines;
      max_bytes = natural size;
      truncated = read.1 || bounded.1;
    })

-- `loadMemoryIndex` for a resolved path; `dirname` is node's.
pub load_memory_index :
    (List ℕ → Text)
    → (ℕ → ℕ)
    → (Text → Text)
    → Text
    → FileState
    → Option LimitValue
    → Option LimitValue
    → Loaded
unfolding load_bytes
load_memory_index decode chunk dirname path file max_lines max_bytes =
    elim (bounded_limit max_lines default_memory_index_max_lines) [
      | none ↦ config_error
      | some lines ↦ elim (bounded_limit max_bytes default_memory_index_max_bytes) [
        | none ↦ config_error
        | some size ↦ elim file [
          | bytes data_bytes ↦ load_bytes decode chunk dirname path data_bytes lines size
          | missing ↦ no_memory
          | unreadable ↦ warning path
        ]
      ]
    ]

unfoldable pub escape_xml_character : ℕ → Text
escape_xml_character c =
    if c == b'&'
    then codes "&amp;"
    else if c == b'<'
    then codes "&lt;"
    else if c == b'>'
    then codes "&gt;"
    else if c == 34
    then codes "&quot;"
    else if c == 39
    then codes "&apos;"
    else c ∷ []

unfoldable pub escape_xml : Text → Text
escape_xml [] = []
escape_xml (c ∷ s) = escape_xml_character c ++ escape_xml s

-- Buffer.byteLength(text, "utf8")
unfoldable pub byte_size : ℕ → ℕ
byte_size c = if ltb c 0x80 then 1 else if ltb c 0x800 then 2 else if ltb c 0x10000 then 3 else 4

unfoldable pub byte_length : Text → ℕ
byte_length [] = 0
byte_length (c ∷ s) = byte_size c + byte_length s

-- The loop of `escapeXmlWithinBytes`, with the bytes used so far.
unfoldable pub escape_within : ℕ → ℕ → Text → Text × Bool
escape_within max_bytes used [] = ([], false)
escape_within max_bytes used (c ∷ s) =
    let escaped = escape_xml_character c in
    let rest = escape_within max_bytes (used + byte_length escaped) s in
    if ltb max_bytes (used + byte_length escaped) then ([], true) else (escaped ++ rest.0, rest.1)

unfoldable pub escape_xml_within_bytes : Text → ℕ → Text × Bool
escape_xml_within_bytes value max_bytes = escape_within max_bytes 0 value

unfoldable pub dots : ℕ → Text
dots zero = []
dots (suc n) = b'.' ∷ dots n

-- The text between the content tags.
unfoldable pub prompt_content : Text → Bool → ℕ → ℕ → Text
prompt_content content truncated max_lines max_bytes =
    let bounded = bound_lines content max_lines in
    let escaped = escape_xml_within_bytes bounded.0 max_bytes in
    let suffix = if leb 3 max_bytes then dots 3 else dots max_bytes in
    if truncated || (bounded.1 || escaped.1)
    then (escape_xml_within_bytes bounded.0 (max_bytes - byte_length suffix)).0 ++ suffix
    else escaped.0

-- `none` is MemoryContextConfigError.
pub format_memory_for_prompt : Option MemoryIndex → Option Text
format_memory_for_prompt none = some []
format_memory_for_prompt (some m) =
    elim (bounded_limit (some m.max_lines) default_memory_index_max_lines) [
      | none ↦ none
      | some lines ↦ elim (bounded_limit (some m.max_bytes) default_memory_index_max_bytes) [
        | none ↦ none
        | some size ↦ some (
            join (codes "\n") (
              codes
                "\n\nThe following memories contain durable context and preferences that should inform your work:"
              ∷ []
              ∷ codes "<memories>"
              ∷ codes "  <memory>"
              ∷ (codes "    <location>" ++ (escape_xml m.file_path ++ codes "</location>"))
              ∷ codes "    <content>"
              ∷ prompt_content m.content m.truncated lines size
              ∷ codes "    </content>"
              ∷ codes "  </memory>"
              ∷ codes "</memories>"
              ∷ []))
      ]
    ]
