-- ===== src/Webapp/Proposals/Titles.antt =====
-- wrappers/nounsDao.ts: the title of a proposal, from its description, on texts as lists of character
-- codes. A pattern is a matcher: it gives what it captures, or none; a star tries the longest run
-- first and gives up one character at a time, as the engine does.
pub mod Headings
pub mod Shown
use composable_nouns_monorep.Common.{
  ℕ, zero, suc, ◌+◌, Bool, true, false, ◌&&◌, ◌||◌, Option, none, some, List, [], ◌∷◌, ◌++◌, ◌==◌,
  leb, if◌then◌else◌,
}
use composable_nouns_monorep.Sdk.Hex.{Text}

abbrev pub Matcher : Type 0
Matcher = Text → Option Text

-- `\s`: the line terminators and the white space of JavaScript.
abbrev pub is_space : ℕ → Bool
is_space c =
    leb 9 c && leb c 13
    || c == 32
    || c == 160
    || c == 5760
    || leb 8192 c && leb c 8202
    || c == 8232
    || c == 8233
    || c == 8239
    || c == 8287
    || c == 12288
    || c == 65279

abbrev pub newline : ℕ
newline = 10

abbrev pub or_else : Option Text → Option Text → Option Text
or_else none y = y
or_else (some x) y = some x

-- `\s*` before a pattern.
abbrev pub spaces : Matcher → Matcher
spaces m [] = m []
spaces m (c ∷ cs) =
    let rest = spaces m cs in
    let here = m (c ∷ cs) in if is_space c then or_else rest here else here

-- `\s+` before a pattern.
abbrev pub some_spaces : Matcher → Matcher
some_spaces m [] = none
some_spaces m (c ∷ cs) = if is_space c then spaces m cs else none

-- `#{1,6}` before a pattern: a # and up to five more.
abbrev pub hashes : ℕ → Matcher → Matcher
hashes zero m cs = m cs
hashes (suc n) m [] = m []
hashes (suc n) m (c ∷ cs) =
    let rest = hashes n m cs in
    let here = m (c ∷ cs) in if c == b'#' then or_else rest here else here

abbrev pub some_hashes : Matcher → Matcher
some_hashes m [] = none
some_hashes m (c ∷ cs) = if c == b'#' then hashes 5 m cs else none

-- The rest of the line, and what follows it.
abbrev pub line : Text → Text
line [] = []
line (c ∷ cs) = let rest = line cs in if c == newline then [] else c ∷ rest

abbrev pub after_line : Text → Text
after_line [] = []
after_line (c ∷ cs) = let rest = after_line cs in if c == newline then c ∷ cs else rest

-- `([^\n]+)`, captured.
abbrev pub nonempty : Text → Option Text
nonempty [] = none
nonempty (c ∷ cs) = some (c ∷ cs)

abbrev pub capture_line : Matcher
capture_line cs = nonempty (line cs)

-- `/^\s*#{1,6}\s+([^\n]+)/`.
unfoldable pub extract_hash_title : Text → Option Text
extract_hash_title body = spaces (some_hashes (some_spaces capture_line)) body

abbrev pub starts_with_three : ℕ → Text → Bool
starts_with_three d [] = false
starts_with_three d (a ∷ []) = false
starts_with_three d (a ∷ b ∷ []) = false
starts_with_three d (a ∷ b ∷ c ∷ cs) = a == d && b == d && c == d

-- `\n(={3,25}|-{3,25})`: the characters after the third do not matter to a match.
abbrev pub is_underlined : Text → Bool
is_underlined [] = false
is_underlined (c ∷ cs) = c == newline && (starts_with_three b'=' cs || starts_with_three b'-' cs)

abbrev pub capture_underlined : Matcher
capture_underlined cs = if is_underlined (after_line cs) then nonempty (line cs) else none

-- `/^\s*([^\n]+)\n(={3,25}|-{3,25})/`.
unfoldable pub extract_equal_title : Text → Option Text
extract_equal_title body = spaces capture_underlined body

-- `if (!body) return null`: a body that is missing or empty has no title.
unfoldable pub extract_title : Option Text → Option Text
unfolding extract_hash_title extract_equal_title
extract_title none = none
extract_title (some []) = none
extract_title (some (c ∷ cs)) = or_else (extract_hash_title (c ∷ cs)) (extract_equal_title (c ∷ cs))

-- `text.replace(/dd/g, '')`: pairs of a character, from the left.
abbrev pub remove_pairs : ℕ → Text → Text
remove_pairs d [] = []
remove_pairs d (a ∷ []) = a ∷ []
remove_pairs d (a ∷ b ∷ cs) =
    let rest = remove_pairs d cs in
    let rest' = remove_pairs d (b ∷ cs) in if a == d && b == d then rest else a ∷ rest'

abbrev pub remove_bold : Option Text → Option Text
remove_bold none = none
remove_bold (some t) = some (remove_pairs b'*' t)

abbrev pub remove_italics : Option Text → Option Text
remove_italics none = none
remove_italics (some t) = some (remove_pairs b'_' t)

unfoldable pub remove_markdown_style : Option Text → Option Text
remove_markdown_style t = remove_bold (remove_italics t)

abbrev pub untitled : Text
untitled = b'U' ∷ b'n' ∷ b't' ∷ b'i' ∷ b't' ∷ b'l' ∷ b'e' ∷ b'd' ∷ []

-- The title of a proposal.
unfoldable pub title_of : Option Text → Text
unfolding extract_title remove_markdown_style
title_of description = elim (remove_markdown_style (extract_title description)) [
  | none ↦ untitled
  | some t ↦ t
]

-- `replace(/\\n/g, '\n')`: a backslash and an n become a line break.
abbrev pub unescape : Text → Text
unescape [] = []
unescape (a ∷ []) = a ∷ []
unescape (a ∷ b ∷ cs) =
    let rest = unescape cs in
    let rest' = unescape (b ∷ cs) in if a == 92 && b == b'n' then newline ∷ rest else a ∷ rest'

abbrev pub is_quote : ℕ → Bool
is_quote c = c == 39 || c == 34

abbrev pub strip_last : Text → Text
strip_last [] = []
strip_last (c ∷ []) = if is_quote c then [] else c ∷ []
strip_last (c ∷ d ∷ cs) = c ∷ strip_last (d ∷ cs)

-- `replace(/(^['"]|['"]$)/g, '')`.
abbrev pub strip_quotes : Text → Text
strip_quotes [] = []
strip_quotes (c ∷ cs) = if is_quote c then strip_last cs else strip_last (c ∷ cs)

unfoldable pub description_of : Option Text → Option Text
description_of none = none
description_of (some t) = some (strip_quotes (unescape t))
