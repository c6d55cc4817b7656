-- ===== src/Tests/Running.antt =====
-- The daemon in a small world, from its start to an answer.
use nono_cedar_pdp.Audit.{Line, policy_set_line, policy_set, loaded as loaded_set}
use nono_cedar_pdp.Audit.LogFile.{ends_mid_line}
use nono_cedar_pdp.Audit.Sink.{Answers}
use nono_cedar_pdp.Audit.Sink.Lines.{read_lines}
use nono_cedar_pdp.Audit.Sink.Trail.{append_all}
use nono_cedar_pdp.Daemon.Clean.{CleanLine, Steps-CleanLine}
use nono_cedar_pdp.Daemon.OnDisk.{IsFine, lines_of, encoded, Kept, Steps-Kept}
use nono_cedar_pdp.Daemon.ReadBack.{to_json, to_json-one_line, consumed, Steps-consumed}
use nono_cedar_pdp.Tests.Tokens.{write_tokens, read_tokens, tokens_one_line, tokens_read_back}
use nono_cedar_pdp.Tests.Trails.{fine, fresh}
use nono_cedar_pdp.Base.{
  All, ap, ◌++◌, refl, true, false, none, some, [], ◌∷◌, here, Text, lit, Result, ok, err, text_eq,
  decimal, contains, ◌≡◌, List, map, Bytes,
}
use nono_cedar_pdp.Run.{pure, lift, act_all, after, ◌>>=◌}
use nono_cedar_pdp.Server.{
  Reply, AppState, header_gate, observed, is_json_content_type, media_type, trim, trim_start,
  trim_end, trim_onto, is_whitespace, eq_ignore_ascii_case, to_lower, refuse_origin, approve,
  answer,
}
use nono_cedar_pdp.FilePaths.{
  absolutize, resolve, join_cwd, starts_with, ends_in, resolve_existing_prefix,
}
use nono_cedar_pdp.Isolation.{
  check, check_private_key, refuse_a_readable_private_key, judge_private_key, loose_key_access,
  refuse_untrusted_policy_dir, refuse_if_untrusted, judge_component, foreign_owner, facts_of,
  loose_writers, check_entries, check_entry, refuse_on_untrusted_ancestors, visit,
  loose_ancestor_writers, judge_audit_log, walk, inside,
}
use nono_cedar_pdp.Config.{
  load, check_bind, deserialize, expand_tls, expand_audit_log, expand_tilde, strip_prefix,
  is_loopback, default_bind, agent_for, unknown_agent, lookup,
}
use nono_cedar_pdp.Loader.{
  load_dir, load_entries, select, is_cedar, extension, extension_of, split_last_dot, skip_reason,
  is_hidden, sort_entries, insert_entry, load_files, load_file, add_all, provenance_id, file_stem,
  stem_of, checked,
}
use nono_cedar_pdp.Engine.{evaluate, decide, path_ambiguity, bootstrap}
use nono_cedar_pdp.Utf8.{from_utf8, as_bytes}
use nono_cedar_pdp.ContentDigest.{file, finish}
use nono_cedar_pdp.EndpointPath.{
  split, ambiguity, scan, find_dot_segment, find, routing, is_dots, strip_parameters,
}
use nono_cedar_pdp.Adapter.{parse}
use nono_cedar_pdp.Decision.{to_wire, from_response}
use nono_cedar_pdp.Entities.{build}
use nono_cedar_pdp.Process.{canonicalize, boot, load_schema, load_config}
use nono_cedar_pdp.Main.{Prepared, prepare, resolve_paths, resolve_tls, check_paths, check_key}
use nono_cedar_pdp.Daemon.{Daemon, idle, waiting}
use nono_cedar_pdp.Daemon.Allowed.{started}
use nono_cedar_pdp.Daemon.Atomic.{replied, approve-Steps}
use nono_cedar_pdp.Tests.Toy.{toy, headers, home-IsResolver, net, world, state, outside}

abbrev fallback : Prepared toy net
fallback = record {
  paths = record {
    config = state.config;
    policy_dir = record { is_absolute = true; names = [] };
    audit_log = record { is_absolute = true; names = [] };
    tls = none;
  };
  warnings = [];
  engine = state.engine;
}

abbrev prepared_of : {F : Type 0} → Result F (Prepared toy net) → Prepared toy net
prepared_of (err x) = fallback
prepared_of (ok p) = p

abbrev prepared : Prepared toy net
prepared = prepared_of (prepare toy net world (lit "conf")).result

-- One request, from the daemon's start to its answer.
abbrev answered : Daemon toy Text
answered =
    let d = started toy net world prepared in
    replied toy Text d (approve toy outside headers (λ limit. some (lit "body")) d.state)

abbrev reply : Reply
reply =
    (approve toy outside headers (λ limit. some (lit "body"))
      (started toy net world prepared).state).1

Steps-CleanLine_example : All CleanLine answered.state.audit
Steps-CleanLine_example = Steps-CleanLine toy Text net world prepared (
    approve-Steps toy Text outside headers (λ limit. some (lit "body"))
      (started toy net world prepared))

abbrev tokens_of : Line → Bytes
tokens_of = to_json write_tokens read_tokens tokens_one_line tokens_read_back

abbrev tokens_of-one_line : (l : Line) → contains b'\n' (tokens_of l) ≡ false
tokens_of-one_line = to_json-one_line write_tokens read_tokens tokens_one_line tokens_read_back

abbrev finely : List Line → List (Answers × Line)
finely [] = []
finely (l ∷ ls) = (fine, l) ∷ finely ls

abbrev trail : List (Answers × Line)
trail = finely answered.state.audit

lines_of-finely : (ls : List Line) → lines_of tokens_of tokens_of-one_line (finely ls) ≡ ls
lines_of-finely [] = refl
lines_of-finely (l ∷ ls) = ap (◌∷◌ l) (lines_of-finely ls)

finely-IsFine : (ls : List Line) → All (λ e. IsFine e.0) (finely ls)
finely-IsFine [] = tt
finely-IsFine (l ∷ ls) =
    (record { readable = refl; there = refl; written = refl }, finely-IsFine ls)

Steps-Kept_example :
    Kept tokens_of tokens_of-one_line toy prepared.paths.config answered reply
      (read_lines (append_all (encoded tokens_of tokens_of-one_line trail) fresh).file.contents).0
unfolding lit text_eq decimal pure lift act_all after ◌>>=◌ prepare resolve_paths canonicalize
    resolve_tls check_paths check_key boot load_schema load_config check check_private_key
    refuse_a_readable_private_key judge_private_key loose_key_access refuse_untrusted_policy_dir
    refuse_if_untrusted judge_component foreign_owner facts_of loose_writers check_entries
    check_entry refuse_on_untrusted_ancestors visit loose_ancestor_writers judge_audit_log
    absolutize resolve join_cwd walk inside starts_with ends_in resolve_existing_prefix load
    check_bind deserialize expand_tls expand_audit_log expand_tilde strip_prefix is_loopback
    default_bind agent_for unknown_agent lookup load_dir load_entries select is_cedar extension
    extension_of split_last_dot skip_reason is_hidden sort_entries insert_entry load_files load_file
    add_all provenance_id file_stem stem_of checked from_utf8 as_bytes file finish split header_gate
    observed is_json_content_type media_type trim trim_start trim_end trim_onto is_whitespace
    eq_ignore_ascii_case to_lower refuse_origin approve answer evaluate decide path_ambiguity
    bootstrap parse to_wire ambiguity scan find_dot_segment find routing is_dots strip_parameters
    contains build from_response ends_mid_line
Steps-Kept_example =
    Steps-Kept tokens_of tokens_of-one_line toy net world home-IsResolver (lit "conf") prepared
      reply trail fresh refl
      (approve-Steps toy Text outside headers (λ limit. some (lit "body"))
        (started toy net world prepared))
      here refl (lines_of-finely answered.state.audit) (finely-IsFine answered.state.audit)
      (refl, refl)

Steps-consumed_example :
    map
      (consumed write_tokens read_tokens tokens_one_line tokens_read_back)
      (read_lines (append_all (encoded tokens_of tokens_of-one_line trail) fresh).file.contents).0
    ≡ map
        (consumed write_tokens read_tokens tokens_one_line tokens_read_back)
        (read_lines fresh.file.contents).0
      ++ map some answered.state.audit
unfolding ends_mid_line
Steps-consumed_example =
    Steps-consumed write_tokens read_tokens tokens_one_line tokens_read_back toy net world prepared
      trail fresh
      (approve-Steps toy Text outside headers (λ limit. some (lit "body"))
        (started toy net world prepared))
      (lines_of-finely answered.state.audit) (finely-IsFine answered.state.audit) (refl, refl)

-- A state with the line of the first load.
abbrev on_file : AppState toy
on_file = record state {
  audit =
      policy_set_line
        (policy_set (lit "t") 1 false (loaded_set [] (map (λ bs. bs) (lit "a.cedar" ∷ []))))
      ∷ [];
}

-- A daemon between two bursts, with one request in flight.
abbrev busy : Daemon toy Text
busy = record {
  state = on_file;
  at_risk = false;
  tasks = waiting outside none (λ limit. some (lit "body")) ∷ [];
  thread = idle;
  replies = [];
}
