-- ===== src/Tests/Source/Sanitize.antt =====
-- The unit tests of src/sanitize.rs.
use nono_cedar_pdp.Base.{◌≡◌, refl, Bool, true, not, ◌&&◌, ◌∷◌, ◌++◌, Text, lit, text_eq}
use nono_cedar_pdp.Sanitize.{
  is_control, has_control, hex_digit, escape_char, escape_all, control_escape,
}

-- A command name with an ANSI erase-line sequence and a carriage return.
abbrev hostile : Text
hostile = lit "git" ++ (0x1b ∷ (lit "[2K" ++ (0x0d ∷ lit "DENY OVERRIDDEN: decision=allow")))

abbrev control_characters_are_escaped : Bool
control_characters_are_escaped =
    let clean = control_escape hostile in
    not (has_control clean)
    && text_eq clean (lit "git\\u{001b}[2K\\u{000d}DENY OVERRIDDEN: decision=allow")

abbrev ordinary_text_is_untouched : Bool
ordinary_text_is_untouched =
    let plain = lit "denied by 10-git:no-history-rewrites (git push --force)" in
    text_eq (control_escape plain) plain && text_eq (control_escape (lit "café ✓")) (lit "café ✓")

abbrev newlines_cannot_forge_an_extra_log_line : Bool
newlines_cannot_forge_an_extra_log_line =
    text_eq (control_escape (lit "ok" ++ (0x0a ∷ lit "ERROR fake log line")))
      (lit "ok\\u{000a}ERROR fake log line")

control_characters_are_escaped_passes : control_characters_are_escaped ≡ true
unfolding lit text_eq control_escape escape_all escape_char hex_digit has_control is_control
control_characters_are_escaped_passes = refl

ordinary_text_is_untouched_passes : ordinary_text_is_untouched ≡ true
unfolding lit text_eq control_escape escape_all escape_char hex_digit has_control is_control
ordinary_text_is_untouched_passes = refl

newlines_cannot_forge_an_extra_log_line_passes : newlines_cannot_forge_an_extra_log_line ≡ true
unfolding lit text_eq control_escape escape_all escape_char hex_digit has_control is_control
newlines_cannot_forge_an_extra_log_line_passes = refl
