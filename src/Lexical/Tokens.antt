-- ===== src/Lexical/Tokens.antt =====
-- Concepts of a label: the normalised text, its tokens, their stems, variants and acronym
-- (freelancer_bot/lexical_matching.py).
use footjob.Base.{Bool, List, Option, Str, [], all_chars, any, codes, ends_with, false}
use footjob.Base.{if◌then◌else◌, is_space, leb, length, lstrip, none, select, some, str_eq}
use footjob.Base.{strip, take, ℕ, ◌&&◌, ◌++◌, ◌-◌, ◌==◌, ◌||◌, ◌∷◌}

-- What `unicodedata`, `str` and `re` know of code points: the tables of Unicode.
pub record Unicode : Type 0 where
  pub nfkc : Str → Str
  pub casefold : Str → Str
  pub isalpha : ℕ → Bool
  pub isalnum : ℕ → Bool

-- `re.sub(r"\s+", " ", s)`
pub squeeze : Bool → Str → Str
unfolding is_space
squeeze after_space [] = []
squeeze after_space (c ∷ s) =
    let rest = squeeze (is_space c) s in
    if is_space c then (if after_space then rest else 32 ∷ rest) else c ∷ rest

unfoldable pub collapse : Str → Str
unfolding squeeze strip lstrip is_space
collapse s = strip (squeeze false s)

unfoldable pub normalize_lexical_text : Unicode → Str → Str
unfolding collapse
normalize_lexical_text u value = collapse (u.casefold (u.nfkc value))

-- Where the pattern `[^\W_]+(?:[+#]+)?` stands in its search, with what it has matched.
pub data Scan : Type 0 where
  outside : Scan
  word marked : Str → Scan

pub is_mark : ℕ → Bool
is_mark c = c == 43 || c == 35

pub scan_next : Unicode → Scan → ℕ → Scan
unfolding is_mark
scan_next u outside c = if u.isalnum c then word (c ∷ []) else outside
scan_next u (word token) c =
    if u.isalnum c
    then word (token ++ c ∷ [])
    else if is_mark c
    then marked (token ++ c ∷ [])
    else outside
scan_next u (marked token) c =
    if u.isalnum c then word (c ∷ []) else if is_mark c then marked (token ++ c ∷ []) else outside

-- The match that ends before `c`.
pub scan_found : Unicode → Scan → ℕ → List Str
unfolding is_mark
scan_found u outside c = []
scan_found u (word token) c = if u.isalnum c || is_mark c then [] else token ∷ []
scan_found u (marked token) c = if is_mark c then [] else token ∷ []

pub find_tokens : Unicode → Scan → Str → List Str
unfolding scan_next scan_found
find_tokens u outside [] = []
find_tokens u (word token) [] = token ∷ []
find_tokens u (marked token) [] = token ∷ []
find_tokens u scan (c ∷ s) = scan_found u scan c ++ find_tokens u (scan_next u scan c) s

pub usable_token : Unicode → Str → Bool
unfolding any select is_mark
usable_token u token = leb 2 (length (select u.isalnum token)) || any is_mark token

-- `stem[:-1]` where a consonant is doubled at the end.
pub undouble : Str → Str
unfolding ends_with take
undouble stem =
    if ends_with (codes "nn") stem
      || ends_with (codes "mm") stem
      || ends_with (codes "tt") stem
      || ends_with (codes "pp") stem
    then take (length stem - 1) stem
    else stem

suffix_rules : List (Str × Str)
suffix_rules =
    (codes "ization", codes "ize")
    ∷ (codes "ational", codes "ate")
    ∷ (codes "tional", codes "tion")
    ∷ (codes "fulness", codes "ful")
    ∷ (codes "ousness", codes "ous")
    ∷ (codes "iveness", codes "ive")
    ∷ (codes "ment", codes "")
    ∷ (codes "ness", codes "")
    ∷ (codes "ation", codes "ate")
    ∷ (codes "tion", codes "")
    ∷ (codes "ing", codes "")
    ∷ (codes "ed", codes "")
    ∷ (codes "er", codes "")
    ∷ (codes "or", codes "")
    ∷ (codes "ity", codes "")
    ∷ (codes "al", codes "")
    ∷ []

-- The first rule whose suffix leaves a stem of three characters.
pub stem_by : List (Str × Str) → Str → Str
unfolding ends_with take undouble
stem_by [] token = token
stem_by ((suffix, replacement) ∷ rules) token =
    let rest = stem_by rules token in
    let stem_length = length token - length suffix in
    if ends_with suffix token && leb 3 stem_length
    then undouble (take stem_length token ++ replacement)
    else rest

-- `token.isalpha()`: a token is never empty.
pub canonical_token : Unicode → Str → Option Str
unfolding usable_token all_chars stem_by suffix_rules
canonical_token u token =
    if usable_token u token
    then some (if all_chars u.isalpha token then stem_by suffix_rules token else token)
    else none

pub canonical_tokens : Unicode → List Str → List Str
unfolding usable_token canonical_token
canonical_tokens u [] = []
canonical_tokens u (token ∷ tokens) =
    let rest = canonical_tokens u tokens in
    if usable_token u token
    then elim (canonical_token u token) [ none ↦ rest | some canonical ↦ canonical ∷ rest ]
    else rest

unfoldable pub lexical_token_sequence : Unicode → Str → List Str
unfolding normalize_lexical_text find_tokens canonical_tokens
lexical_token_sequence u value =
    canonical_tokens u (find_tokens u outside (normalize_lexical_text u value))

cyrillic_to_latin : List (ℕ × Str)
cyrillic_to_latin =
    (0x430, codes "a")
    ∷ (0x431, codes "b")
    ∷ (0x432, codes "v")
    ∷ (0x433, codes "g")
    ∷ (0x434, codes "d")
    ∷ (0x435, codes "e")
    ∷ (0x436, codes "zh")
    ∷ (0x437, codes "z")
    ∷ (0x438, codes "i")
    ∷ (0x439, codes "y")
    ∷ (0x43a, codes "k")
    ∷ (0x43b, codes "l")
    ∷ (0x43c, codes "m")
    ∷ (0x43d, codes "n")
    ∷ (0x43e, codes "o")
    ∷ (0x43f, codes "p")
    ∷ (0x440, codes "r")
    ∷ (0x441, codes "s")
    ∷ (0x442, codes "t")
    ∷ (0x443, codes "u")
    ∷ (0x444, codes "f")
    ∷ (0x445, codes "kh")
    ∷ (0x446, codes "ts")
    ∷ (0x447, codes "ch")
    ∷ (0x448, codes "sh")
    ∷ (0x449, codes "shch")
    ∷ (0x44a, codes "")
    ∷ (0x44b, codes "y")
    ∷ (0x44c, codes "")
    ∷ (0x44d, codes "e")
    ∷ (0x44e, codes "yu")
    ∷ (0x44f, codes "ya")
    ∷ (0x451, codes "yo")
    ∷ []

pub latin_of : List (ℕ × Str) → ℕ → Str
latin_of [] c = c ∷ []
latin_of ((letter, latin) ∷ table) c =
    let rest = latin_of table c in if letter == c then latin else rest

pub transliterate : Str → Str
unfolding latin_of cyrillic_to_latin
transliterate [] = []
transliterate (c ∷ s) = latin_of cyrillic_to_latin c ++ transliterate s

pub transliterated_root : Str → Str
unfolding ends_with take
transliterated_root value =
    if leb 4 (length value) && ends_with (codes "ies") value
    then take (length value - 3) value ++ codes "y"
    else if leb 4 (length value) && ends_with (codes "y") value
    then take (length value - 1) value
    else value

unfoldable pub token_variants : Str → List Str
unfolding str_eq transliterate transliterated_root
token_variants token =
    let transliterated = transliterate token in
    token ∷ (if str_eq transliterated token then [] else transliterated_root transliterated ∷ [])

pub all_variants : List Str → List Str
unfolding token_variants
all_variants [] = []
all_variants (token ∷ tokens) = token_variants token ++ all_variants tokens

unfoldable pub lexical_concepts : Unicode → Str → List Str
unfolding lexical_token_sequence all_variants
lexical_concepts u value =
    let concepts = lexical_token_sequence u value in concepts ++ all_variants concepts

pub initials : List Str → Str
initials [] = []
initials ([] ∷ tokens) = initials tokens
initials ((c ∷ token) ∷ tokens) = c ∷ initials tokens

unfoldable pub acronym_of : List Str → Option Str
unfolding initials
acronym_of tokens =
    let acronym = initials tokens in
    if leb 2 (length tokens) && leb 2 (length acronym) then some acronym else none
