-- ===== src/Proxy/Target.antt =====
-- crates/silo-proxy/src/proxy.rs: reading the request head, its first line, and the authority.
pub mod Head
pub mod Authority
use llmdevsilo.Prelude.{
  ℕ, zero, suc, ◌+◌, ◌-◌, ◌*◌, Bool, true, false, not, ◌&&◌, ◌||◌, List, [], ◌∷◌, reverse, Option,
  none, some, Text, codes, ◌==◌, nat_eq, leb, ltb, eqb, if◌then◌else◌, strip_prefix, any, length,
  is_some,
}

abbrev pub max_head : ℕ
max_head = 64 * 1024

-- The last four bytes are `\r\n\r\n`; the buffer has its last byte at the head.
unfoldable pub ends_head : Text → Bool
unfolding strip_prefix
ends_head rev = is_some (strip_prefix (10 ∷ 13 ∷ 10 ∷ 13 ∷ []) rev)

-- The loop of `read_request_head` over the bytes that the peer sends until it closes; `none` is
-- "request head too large".
unfoldable pub head_loop : Text → Text → Option Text
unfolding ends_head
head_loop rev [] = some (reverse rev)
head_loop rev (byte ∷ bytes) = elim (ends_head (byte ∷ rev)) [
  | true ↦ some (reverse (byte ∷ rev))
  | false ↦ elim (ltb max_head (length (byte ∷ rev))) [
    | true ↦ none
    | false ↦ head_loop (byte ∷ rev) bytes
  ]
]

unfoldable pub read_request_head : Text → Option Text
unfolding head_loop
read_request_head bytes = head_loop [] bytes

-- `char::is_whitespace`.
unfoldable pub is_whitespace : ℕ → Bool
is_whitespace c =
    (leb 9 c && leb c 13)
    || (any (λ d. eqb c d)
          (32 ∷ 0x85 ∷ 0xa0 ∷ 0x1680 ∷ 0x2028 ∷ 0x2029 ∷ 0x202f ∷ 0x205f ∷ 0x3000 ∷ [])
        || (leb 0x2000 c && leb c 0x200a))

-- `text.lines().next()`: up to the first `\n`, less a `\r` before it.
unfoldable pub line_from : Text → Text → Text
line_from rev [] = reverse rev
line_from rev (c ∷ s) = elim (eqb c 10) [
  | true ↦ elim (strip_prefix (13 ∷ []) rev) [ some shorter ↦ reverse shorter | none ↦ reverse rev ]
  | false ↦ line_from (c ∷ rev) s
]

unfoldable pub first_line : Text → Option Text
unfolding line_from strip_prefix
first_line [] = none
first_line (c ∷ s) = some (line_from [] (c ∷ s))

-- One word of `split_whitespace`, and what follows it.
unfoldable pub word_from : Text → Text → Text × Text
word_from rev [] = (reverse rev, [])
word_from rev (c ∷ s) = elim (is_whitespace c) [
  | true ↦ (reverse rev, s)
  | false ↦ word_from (c ∷ rev) s
]

unfoldable pub next_word : Text → Option (Text × Text)
unfolding word_from is_whitespace
next_word [] = none
next_word (c ∷ s) = elim (is_whitespace c) [
  | true ↦ next_word s
  | false ↦ some (word_from (c ∷ []) s)
]

-- `parse_request_line`, behind the decoding of the bytes as UTF-8.
unfoldable pub parse_request_line : Text → Option (Text × Text)
unfolding first_line next_word
parse_request_line text = elim (first_line text) [
  | none ↦ none
  | some line ↦ elim (next_word line) [
    | none ↦ none
    | some (method, rest) ↦ elim (next_word rest) [
      | none ↦ none
      | some (target, _) ↦ some (method, target)
    ]
  ]
]

-- `p.parse::<u16>()`: an optional `+`, then digits, at most 65535.
unfoldable pub digits_from : ℕ → Text → Option ℕ
digits_from acc [] = if leb acc 65535 then some acc else none
digits_from acc (c ∷ s) = elim (leb b'0' c && leb c b'9') [
  | true ↦ digits_from (acc * 10 + (c - b'0')) s
  | false ↦ none
]

unfoldable pub parse_u16 : Text → Option ℕ
unfolding digits_from
parse_u16 [] = none
parse_u16 (c ∷ s) =
    if eqb c b'+'
    then elim s as (λ _. Option ℕ) [ [] ↦ none | d ∷ r ↦ digits_from 0 (d ∷ r) ]
    else digits_from 0 (c ∷ s)

-- `split_once(d)` and `rsplit_once(d)` at one character.
unfoldable pub split_once : ℕ → Text → Option (Text × Text)
split_once d [] = none
split_once d (c ∷ s) = elim (eqb c d) [
  | true ↦ some ([], s)
  | false ↦ elim (split_once d s) [ some (a, b) ↦ some (c ∷ a, b) | none ↦ none ]
]

unfoldable pub rsplit_once : ℕ → Text → Option (Text × Text)
rsplit_once d [] = none
rsplit_once d (c ∷ s) = elim (rsplit_once d s) [
  | some (a, b) ↦ some (c ∷ a, b)
  | none ↦ if eqb c d then some ([], s) else none
]

abbrev pub or_else : ℕ → Option ℕ → ℕ
or_else d none = d
or_else d (some n) = n

-- The port behind the bracket of an IPv6 literal.
unfoldable pub bracket_port : Text → ℕ → ℕ
unfolding strip_prefix parse_u16
bracket_port rest default_port = elim (strip_prefix (codes ":") rest) [
  | some p ↦ or_else default_port (parse_u16 p)
  | none ↦ default_port
]

unfoldable pub split_plain : Text → ℕ → Text × ℕ
unfolding rsplit_once parse_u16
split_plain target default_port = elim (rsplit_once b':' target) [
  | some (host, p) ↦ (host, or_else default_port (parse_u16 p))
  | none ↦ (target, default_port)
]

unfoldable pub split_host_port : Text → ℕ → Text × ℕ
unfolding split_plain bracket_port split_once strip_prefix
split_host_port target default_port = elim (strip_prefix (codes "[") target) [
  | none ↦ split_plain target default_port
  | some stripped ↦ elim (split_once b']' stripped) [
    | some (host, rest) ↦ (host, bracket_port rest default_port)
    | none ↦ split_plain target default_port
  ]
]
