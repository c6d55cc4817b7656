-- ===== src/Sanitize/Laws.antt =====
-- What `control_escape` promises its callers.
use nono_cedar_pdp.Base.{
  ℕ, ◌/◌, ◌%◌, ◌<◌, ◌≡◌, refl, sym, ◌∙◌, false, inl, inr, Bool-cases, [], ◌∷◌, ◌++◌, append_assoc,
  arith, if◌then◌else◌, Text,
}
use nono_cedar_pdp.Sanitize.{
  is_control, has_control, hex_digit, escape_char, escape_all, control_escape,
}

pub has_control-append_false :
    (a b : Text) → has_control a ≡ false → has_control b ≡ false → has_control (a ++ b) ≡ false
unfolding has_control
has_control-append_false [] b ha hb = hb
has_control-append_false (c ∷ a) b ha hb = ground (arith, has_control-append_false a b)

hex_digit_printable : (d : ℕ) → d < 16 → is_control (hex_digit d) ≡ false
unfolding is_control hex_digit
hex_digit_printable d h = ground arith

escape_char_printable : (c : ℕ) → has_control (escape_char c) ≡ false
unfolding is_control has_control escape_char
escape_char_printable c = ground (
  arith,
  hex_digit_printable (c / 4096 % 16),
  hex_digit_printable (c / 256 % 16),
  hex_digit_printable (c / 16 % 16),
  hex_digit_printable (c % 16),
)

escape_one_printable :
    (c : ℕ) → has_control (if is_control c then escape_char c else c ∷ []) ≡ false
escape_one_printable c = elim (Bool-cases (is_control c)) [
  | inl e ↦ rw e (escape_char_printable c)
  | inr e ↦ rw e (unfold has_control in rw e)
]

escape_all_printable : (t : Text) → has_control (escape_all t) ≡ false
unfolding escape_all
escape_all_printable [] = unfold has_control in refl
escape_all_printable (c ∷ cs) =
    has_control-append_false _ (escape_all cs) (escape_one_printable c) (escape_all_printable cs)

escape_all_id : (t : Text) → has_control t ≡ false → escape_all t ≡ t
unfolding escape_all has_control
escape_all_id [] h = refl
escape_all_id (c ∷ cs) h = ground (arith, escape_all_id cs)

-- The early return for clean text is only a shortcut.
pub control_escape-eq_escape_all : (t : Text) → control_escape t ≡ escape_all t
unfolding control_escape
control_escape-eq_escape_all t = elim (Bool-cases (has_control t)) [
  | inl e ↦ rw e refl
  | inr e ↦ rw e (sym (escape_all_id t e))
]

-- No control character survives `control_escape`.
pub control_escape-printable : (t : Text) → has_control (control_escape t) ≡ false
control_escape-printable t = rw control_escape-eq_escape_all (escape_all_printable t)

-- Text with no control character is returned unchanged.
pub control_escape_id : (t : Text) → has_control t ≡ false → control_escape t ≡ t
control_escape_id t h = control_escape-eq_escape_all t ∙ escape_all_id t h

-- Escaping twice is escaping once, so a value that passes two recording boundaries is not mangled.
pub control_escape_idem : (t : Text) → control_escape (control_escape t) ≡ control_escape t
control_escape_idem t = control_escape_id (control_escape t) (control_escape-printable t)

escape_all-append : (a b : Text) → escape_all (a ++ b) ≡ escape_all a ++ escape_all b
unfolding escape_all
escape_all-append [] b = refl
escape_all-append (c ∷ a) b = simp (escape_all-append a b, append_assoc)

-- Escaping works character by character.
pub control_escape-append :
    (a b : Text) → control_escape (a ++ b) ≡ control_escape a ++ control_escape b
control_escape-append a b = simp control_escape-eq_escape_all (escape_all-append a b)
