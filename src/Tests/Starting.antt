-- ===== src/Tests/Starting.antt =====
-- The commands of the daemon in a small world.
use nono_cedar_pdp.Base.{
  ◌≡◌, ◌↔◌, refl, true, false, none, some, [], ◌∷◌, lit, Result, ok, err, decimal, text_eq,
}
use nono_cedar_pdp.Config.{
  Config, default_bind, load, check_bind, deserialize, expand_tls, expand_audit_log, expand_tilde,
  strip_prefix, is_loopback,
}
use nono_cedar_pdp.Wire.{allow}
use nono_cedar_pdp.Engine.{Engine, bootstrap}
use nono_cedar_pdp.Server.{
  wire, approve, AppState, header_gate, observed, is_json_content_type, media_type, trim,
  trim_start, trim_end, trim_onto, is_whitespace, eq_ignore_ascii_case, to_lower, refuse_origin,
}
use nono_cedar_pdp.EndpointPath.{split}
use nono_cedar_pdp.Utf8.{from_utf8, as_bytes}
use nono_cedar_pdp.ContentDigest.{file, finish}
use nono_cedar_pdp.Loader.{
  load_dir, load_entries, select, is_cedar, extension, extension_of, split_last_dot, skip_reason,
  is_hidden, sort_entries, insert_entry, load_files, load_file, add_all, provenance_id, file_stem,
  stem_of, checked,
}
use nono_cedar_pdp.Server.Listen.{serve}
use nono_cedar_pdp.Server.Listen.Transport.{Transport, serve-Transport}
use nono_cedar_pdp.Process.{load_config, load_schema, boot}
use nono_cedar_pdp.Main.{
  main, check_command, success, run_check, run_validate, run_serve, Prepared, start,
}
use nono_cedar_pdp.Main.Startup.{Course, run_serve-Course}
use nono_cedar_pdp.Main.Order.{Order, start-Order}
use nono_cedar_pdp.Main.Commands.{
  arrived, Alike, Validated, outside_of, run_check-approve, main-check_iff,
  run_validate-Validated_iff,
}
use nono_cedar_pdp.Tests.Toy.{toy, texts, headers, home-IsResolver, net, world, config, serving}

abbrev with_pair : Config
with_pair = record config { tls = some (record { cert = lit "cert"; key = lit "key" }) }

abbrev first : AppState toy
first = record { engine = serving; config = with_pair; audit = []; last_reload = none }

serve-Transport_example : Transport toy net first default_bind (serve toy net first default_bind)
serve-Transport_example = serve-Transport toy net first default_bind

run_serve-Course_example : Course toy net world (lit "conf") (run_serve toy net world (lit "conf"))
run_serve-Course_example = run_serve-Course toy net world home-IsResolver (lit "conf")

-- The pair's files, resolved.
abbrev prepared : Prepared toy net
prepared = record {
  paths = record {
    config = config;
    policy_dir = record { is_absolute = true; names = lit "p" ∷ [] };
    audit_log = record { is_absolute = true; names = lit "l" ∷ [] };
    tls = none;
  };
  warnings = [];
  engine = serving;
}

start-Order_example : Order toy net world prepared (start toy net world prepared)
start-Order_example = start-Order toy net world prepared

abbrev small : Config
small = record {
  bind = default_bind;
  policy_dir = lit "p";
  audit_log = lit "l";
  agents = (lit "cedar", lit "dev") ∷ [];
  tls = some (record { cert = lit "cert"; key = lit "key" });
}

-- The engine of a load that succeeds.
abbrev engine_of : {F : Type 0} → Result F (Engine toy) → Engine toy
engine_of (err x) = serving
engine_of (ok e) = e

abbrev booted : Engine toy
booted = engine_of (boot toy net world (lit "p"))

run_validate-Validated_iff_example :
    ((run_validate toy net world (lit "conf")).result ≡ ok 1)
    ↔ Validated toy net world (lit "conf") 1
run_validate-Validated_iff_example = run_validate-Validated_iff toy net world (lit "conf") 1

run_check-approve_example :
    Alike toy net world
      (lit "body")
      (run_check toy net world (lit "conf") (lit "body") true)
      (approve toy
        (outside_of toy net world texts (λ bs. bs))
        headers
        (arrived toy net world (lit "body"))
        (record { engine = booted; config = small; audit = []; last_reload = none })).1
unfolding lit header_gate observed is_json_content_type media_type split trim trim_start trim_end
    trim_onto is_whitespace eq_ignore_ascii_case to_lower refuse_origin load_config load check_bind
    deserialize expand_tls expand_audit_log expand_tilde strip_prefix is_loopback default_bind boot
    load_schema bootstrap load_dir load_entries select is_cedar extension extension_of
    split_last_dot text_eq skip_reason from_utf8 is_hidden sort_entries insert_entry load_files
    load_file add_all provenance_id file_stem stem_of checked file finish decimal as_bytes
run_check-approve_example =
    run_check-approve toy net world texts (λ bs. bs) headers (lit "conf") (lit "body") true small
      booted (lit "body") [] none refl refl refl refl

main-check_iff_example :
    ((main toy net world (check_command (lit "conf") (lit "body") false)).1 ≡ success) ↔ (
      (approve toy
        (outside_of toy net world texts (λ bs. bs))
        headers
        (arrived toy net world (lit "body"))
        (record { engine = booted; config = small; audit = []; last_reload = none })).1.body
      ≡ wire allow)
unfolding lit header_gate observed is_json_content_type media_type split trim trim_start trim_end
    trim_onto is_whitespace eq_ignore_ascii_case to_lower refuse_origin load_config load check_bind
    deserialize expand_tls expand_audit_log expand_tilde strip_prefix is_loopback default_bind boot
    load_schema bootstrap load_dir load_entries select is_cedar extension extension_of
    split_last_dot text_eq skip_reason from_utf8 is_hidden sort_entries insert_entry load_files
    load_file add_all provenance_id file_stem stem_of checked file finish decimal as_bytes
main-check_iff_example =
    main-check_iff toy net world texts (λ bs. bs) headers (lit "conf") (lit "body") false small
      booted (lit "body") [] none refl refl refl refl refl
