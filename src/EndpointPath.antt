-- ===== src/EndpointPath.antt =====
-- src/endpoint_path.rs: is the meaning of a raw endpoint path knowable?
-- A string is the list of its characters; the byte-wise decoder works on its UTF-8 bytes.
pub mod Segments
pub mod Decoding
pub mod Guard
pub mod Verdicts
pub mod Describe
use nono_cedar_pdp.Base.{
  ℕ, zero, suc, ◌+◌, ◌-◌, ◌*◌, Bool, true, false, not, ◌&&◌, ◌||◌, Option, none, some, List, [],
  ◌∷◌, map, leb, ◌==◌, if◌then◌else◌, Text, Bytes, lit, text_eq, contains, Result, ok, err, ◌>>=◌,
}
use nono_cedar_pdp.Utf8.{as_bytes, from_utf8}

-- `MAX_DECODE_PASSES`
abbrev pub max_decode_passes : ℕ
max_decode_passes = 8

-- `enum Ambiguity`
pub data Ambiguity : Type 0 where
  dot_segment : Text → ℕ → Ambiguity
  malformed_escape non_utf8 nested_too_deep : Ambiguity

-- Puts a character in front of the first piece.
unfoldable pub onto : ℕ → List Text → List Text
onto c [] = (c ∷ []) ∷ []
onto c (w ∷ ws) = (c ∷ w) ∷ ws

-- `str::split` by a set of separator characters: always at least one piece.
unfoldable pub split : (ℕ → Bool) → Text → List Text
unfolding onto
split p [] = [] ∷ []
split p (c ∷ cs) = let rest = split p cs in if p c then [] ∷ rest else onto c rest

-- `.next().unwrap_or(default)` on the pieces.
abbrev pub first_or : Text → List Text → Text
first_or d [] = d
first_or d (w ∷ ws) = w

abbrev pub is_slash : ℕ → Bool
is_slash c = c == b'/' || c == b'\\'

-- `segment.split(';').next().unwrap_or(segment)`
unfoldable pub strip_parameters : Text → Text
unfolding split
strip_parameters segment = first_or segment (split (λ c. c == b';') segment)

-- `*segment == "." || *segment == ".."`
unfoldable pub is_dots : Text → Bool
unfolding text_eq
is_dots segment = text_eq segment (b'.' ∷ []) || text_eq segment (b'.' ∷ b'.' ∷ [])

-- `Iterator::find`
unfoldable pub find : (Text → Bool) → List Text → Option Text
find p [] = none
find p (w ∷ ws) = if p w then some w else find p ws

-- `fn dot_segment`
unfoldable pub find_dot_segment : Text → Option Text
find_dot_segment path = find is_dots (map strip_parameters (split is_slash path))

-- `fn hex` in `percent_decode`
unfoldable pub hex : ℕ → Option ℕ
hex byte =
    if leb b'0' byte && leb byte b'9'
    then some (byte - b'0')
    else if leb b'a' byte && leb byte b'f'
    then some (byte - b'a' + 10)
    else if leb b'A' byte && leb byte b'F'
    then some (byte - b'A' + 10)
    else none

abbrev pub push_byte : ℕ → Result Ambiguity Bytes → Result Ambiguity Bytes
push_byte b (ok out) = ok (b ∷ out)
push_byte b (err e) = err e

-- The `let (Some(high), Some(low)) = … else` of the loop, with the rest of the loop.
unfoldable pub push_escaped : Option ℕ → Option ℕ → Result Ambiguity Bytes → Result Ambiguity Bytes
push_escaped (some high) (some low) rest = push_byte (high * 16 + low) rest
push_escaped (some high) none rest = err malformed_escape
push_escaped none low rest = err malformed_escape

-- The `while` loop of `percent_decode` from an index on: `out` is what the loop still pushes.
-- A byte past the end is `None` in the source, so an escape cut short is malformed.
unfoldable pub decode_loop : Bytes → Result Ambiguity Bytes
unfolding push_escaped
decode_loop [] = ok []
decode_loop (b ∷ []) = if b == b'%' then err malformed_escape else ok (b ∷ [])
decode_loop (b ∷ c ∷ []) =
    let plain = push_byte b (decode_loop (c ∷ [])) in
    if b == b'%' then err malformed_escape else plain
decode_loop (b ∷ c ∷ d ∷ bytes) =
    let plain = push_byte b (decode_loop (c ∷ d ∷ bytes)) in
    let escaped = push_escaped (hex c) (hex d) (decode_loop bytes) in
    if b == b'%' then escaped else plain

-- `String::from_utf8(out).map_err(|_| Ambiguity::NonUtf8)`
unfoldable pub to_text : Option Text → Result Ambiguity Text
to_text (some t) = ok t
to_text none = err non_utf8

unfoldable pub percent_decode : Text → Result Ambiguity Text
percent_decode text = do out ← decode_loop (as_bytes text); to_text (from_utf8 out)

-- The loop of `ambiguity`: `n` rounds are left of `0..=MAX_DECODE_PASSES`.
unfoldable pub scan : ℕ → ℕ → Text → Option Ambiguity
scan zero passes current = some nested_too_deep
scan (suc n) passes current = elim (find_dot_segment current) [
  | some segment ↦ some (dot_segment segment passes)
  | none ↦ if not (contains b'%' current) then none else elim (percent_decode current) [
    | ok decoded ↦
        let rest = scan n (suc passes) decoded in if text_eq decoded current then none else rest
    | err undecodable ↦ if passes == 0 then some undecodable else none
  ]
]

-- The part of the request target before the query.
unfoldable pub routing : Text → Text
unfolding split
routing path = first_or path (split (λ c. c == b'?') path)

unfoldable pub ambiguity : Text → Option Ambiguity
ambiguity path = scan (suc max_decode_passes) 0 (routing path)
