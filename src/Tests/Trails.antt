-- ===== src/Tests/Trails.antt =====
-- The decision log at concrete records and files.
use nono_cedar_pdp.Base.{
  ◌≡◌, refl, inl, inr, true, false, List, none, some, [], ◌∷◌, ◌++◌, Bytes, lit, contains,
}
use nono_cedar_pdp.Audit.LogFile.{Found, ends_mid_line}
use nono_cedar_pdp.Audit.Sink.{Sink, attached, Answers, reattach, append}
use nono_cedar_pdp.Audit.Sink.Recovery.{IsHonest, append-IsHonest, append-forgets_broken_line}
use nono_cedar_pdp.Audit.Sink.Trail.{append_all, successes, append_all-lines}
use nono_cedar_pdp.Audit.Sink.Lines.{read_lines, closed, append-lines}

abbrev pub empty_found : Found
empty_found = record {
  parent_ok = true;
  opens_read = true;
  opens_append = true;
  contents = [];
  mode = 0o600;
  chmod_ok = true;
}

abbrev pub fine : Answers
fine = record {
  attachment = attached;
  at_path = empty_found;
  size_known = true;
  write_fails = none;
  truncates = true;
  size_known_after = true;
}

-- The disk is full after one byte.
abbrev full : Answers
full = record fine { write_fails = some 1 }

-- A log whose last record was cut off.
abbrev broken : Sink
broken = record {
  file = record { contents = lit "{}\n{"; mode = 0o600 };
  unterminated = true;
  last_size = none;
}

append-lines_example : read_lines (append fine (lit "{1}") broken).file.contents ≡ (
  (read_lines (reattach attached empty_found broken).file.contents).0
      ++ (closed
            (reattach attached empty_found broken).unterminated
            (read_lines (reattach attached empty_found broken).file.contents).1
          ++ lit "{1}" ∷ []),
  [],
)
unfolding lit contains
append-lines_example = append-lines fine (lit "{1}") broken refl refl refl (inl refl)

append-IsHonest_example : IsHonest (append fine (lit "{1}") broken)
append-IsHonest_example = append-IsHonest fine (lit "{1}") broken refl (inl refl) (inl refl)

append-forgets_broken_line_example :
    (¬ IsHonest (append full (lit "{1}") broken))
    × ((append fine (lit "{2}") (append full (lit "{1}") broken)).file.contents
        ≡ broken.file.contents ++ (lit "{2}" ++ b'\n' ∷ []))
unfolding lit ends_mid_line
append-forgets_broken_line_example =
    append-forgets_broken_line full fine (lit "{1}") (lit "{2}") broken 1 refl (refl, refl) refl
      refl refl refl

-- One record that is written, one that the full disk cuts off, and one that is written again.
abbrev three : List (Answers × Bytes)
three = (fine, lit "{1}") ∷ (full, lit "{2}") ∷ (fine, lit "{3}") ∷ []

abbrev pub fresh : Sink
fresh = record {
  file = record { contents = []; mode = 0o600 };
  unterminated = false;
  last_size = none;
}

append_all-lines_example :
    read_lines (append_all three fresh).file.contents
    ≡ ((read_lines fresh.file.contents).0 ++ successes three, [])
unfolding lit contains ends_mid_line
append_all-lines_example =
    append_all-lines three fresh
      (
        record { one_line = refl; readable = refl; there = refl; write = inl refl },
        (
          record { one_line = refl; readable = refl; there = refl; write = inr (refl, refl) },
          (record { one_line = refl; readable = refl; there = refl; write = inl refl }, tt),
        ),
      )
      (refl, refl)
