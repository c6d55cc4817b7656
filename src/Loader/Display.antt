-- ===== src/Loader/Display.antt =====
-- The `Display` of the load's error in src/cedar/engine.rs. What the system's error and a file's path
-- show of themselves are parameters; a file is named by its name's bytes.
use nono_cedar_pdp.Base.{[], ◌∷◌, Text, Bytes, lit, concat, join}
use nono_cedar_pdp.Loader.{PolicyLoadError, io, read_file, parse, duplicate, validation, empty}

module _ {E : Type 0} (show : E → Text) (display : Bytes → Text) where
  unfoldable pub load_text : PolicyLoadError E → Text
  load_text (io path source) =
      concat (lit "reading policy dir " ∷ path ∷ lit ": " ∷ show source ∷ [])
  load_text (read_file path source) =
      concat (lit "reading policy file " ∷ display path ∷ lit ": " ∷ show source ∷ [])
  load_text (parse path message) = concat (lit "parsing " ∷ display path ∷ lit ": " ∷ message ∷ [])
  load_text (duplicate path message) =
      concat (lit "duplicate policy id from " ∷ display path ∷ lit ": " ∷ message ∷ [])
  load_text (validation errors) =
      concat
        (lit "policy validation failed against the nono schema: " ∷ join (lit "; ") errors ∷ [])
  load_text (empty path) = concat (
      lit "no policies found in "
      ∷ path
      ∷ lit " (checked every *.cedar file) — refusing to serve a deny-everything policy set"
      ∷ [])
