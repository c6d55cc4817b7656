-- ===== src/Sanitize.antt =====
-- src/sanitize.rs: escaping of request-derived text that reaches an operator.
-- `char::is_control` holds of the code points below the space, and of those from DEL to 9F.
pub mod Laws
use nono_cedar_pdp.Base.{
  ℕ, ◌+◌, ◌-◌, ◌/◌, ◌%◌, Bool, true, false, not, ◌&&◌, ◌||◌, [], ◌∷◌, ◌++◌, ltb, leb, if◌then◌else◌,
  Text,
}

unfoldable pub is_control : ℕ → Bool
is_control c = ltb c 0x20 || (leb 0x7f c && ltb c 0xa0)

-- `str::chars().any(char::is_control)`
unfoldable pub has_control : Text → Bool
has_control [] = false
has_control (c ∷ cs) = is_control c || has_control cs

-- One digit of `{:x}`.
unfoldable pub hex_digit : ℕ → ℕ
hex_digit d = if ltb d 10 then b'0' + d else b'a' + (d - 10)

-- `format!("\\u{{{:04x}}}", c as u32)`; a control character is below 0x10000, so the four
-- digits that the width asks for are all there are.
unfoldable pub escape_char : ℕ → Text
escape_char c =
    b'\\'
    ∷ b'u'
    ∷ b'{'
    ∷ hex_digit (c / 4096 % 16)
    ∷ hex_digit (c / 256 % 16)
    ∷ hex_digit (c / 16 % 16)
    ∷ hex_digit (c % 16)
    ∷ b'}'
    ∷ []

-- The loop that pushes each character, escaped or as it is.
unfoldable pub escape_all : Text → Text
escape_all [] = []
escape_all (c ∷ cs) = (if is_control c then escape_char c else c ∷ []) ++ escape_all cs

unfoldable pub control_escape : Text → Text
control_escape input = if not (has_control input) then input else escape_all input
