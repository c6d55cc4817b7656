-- ===== src/Isolation/Display.antt =====
-- The texts of src/isolation.rs: the `Display` of its error, and the containment warnings. What a
-- path and an error of the system show of themselves are parameters.
use nono_cedar_pdp.Base.{[], ◌∷◌, Text, lit, concat, decimal}
use nono_cedar_pdp.FilePaths.{FilePath, IoError}
use nono_cedar_pdp.Isolation.{
  IsolationError, writable, writable_ancestor, foreign, accessible_key, io, Warning,
  policy_dir_inside_cwd, audit_log_inside_cwd, private_key_inside_cwd,
}

module _ (display : FilePath → Text) where
  unfoldable pub explain : {E : Type 0} → (IoError E → Text) → IsolationError E → Text
  unfolding decimal
  explain show (writable what path mode who) = concat (
      what
      ∷ lit " "
      ∷ display path
      ∷ lit " is "
      ∷ who
      ∷ lit "-writable (mode "
      ∷ mode
      ∷ lit
          ") — another local user could add or rewrite a policy and decide this daemon's approvals, so it refuses to serve. Fix with `chmod go-w "
      ∷ display path
      ∷ lit
          "` (a user-private group counts: this process cannot tell one from a shared group) — but review the contents first: tightening the mode does not undo content added or modified while the path was writable by others. This says nothing about a sandboxed agent, which runs as the same user as this daemon and is bounded only by its nono profile's write grants"
      ∷ [])
  explain show (writable_ancestor what path ancestor mode who) = concat (
      what
      ∷ lit " "
      ∷ display path
      ∷ lit " has a "
      ∷ who
      ∷ lit "-writable non-sticky ancestor "
      ∷ display ancestor
      ∷ lit " (mode "
      ∷ mode
      ∷ lit
          ") — another local user could rename entries in that ancestor and substitute the whole tree below it, redirecting what this daemon reads and writes there no matter how tight the "
      ∷ what
      ∷ lit "'s own mode is, so it refuses to serve. Fix with `chmod go-w "
      ∷ display ancestor
      ∷ lit "`, or set the sticky bit (`chmod +t "
      ∷ display ancestor
      ∷ lit
          "`) if the directory is deliberately shared: sticky stops others renaming or unlinking entries they do not own, which is why /tmp-style 1777 directories are exempt here (and why sticky does not exempt the policy directory itself, where creating a new *.cedar file is the attack). This says nothing about a sandboxed agent, which runs as the same user as this daemon and is bounded only by its nono profile's write grants"
      ∷ [])
  explain show (foreign what path owner euid) = concat (
      what
      ∷ lit " "
      ∷ display path
      ∷ lit " is owned by uid "
      ∷ decimal owner
      ∷ lit ", which is neither this daemon's user (uid "
      ∷ decimal euid
      ∷ lit
          ") nor root — an owner can loosen, rename or rewrite a path at will, so a mode that looks tight proves nothing about who controls it (a component another local user pre-created under a /tmp-style sticky ancestor passes every mode test this way: sticky stops renames of entries you do not own, not creation), and the daemon refuses to serve. Recreate the path under a directory this user owns, or have root take ownership of it. This says nothing about a sandboxed agent, which runs as the same user as this daemon and is bounded only by its nono profile's write grants"
      ∷ [])
  explain show (accessible_key path mode who) = concat (
      lit "TLS private key "
      ∷ display path
      ∷ lit " is "
      ∷ who
      ∷ lit "-accessible (mode "
      ∷ mode
      ∷ lit
          ") — a private key must be reachable by its owner alone: another local user who can read it answers nono's approvals in this daemon's place with a handshake nono cannot tell from ours, and one who can write it substitutes a key the certificate does not match. So the daemon refuses to serve. Fix with `chmod 600 "
      ∷ display path
      ∷ lit
          "` (a user-private group counts: this process cannot tell one from a shared group). This says nothing about a sandboxed agent, which runs as the same user as this daemon: what separates the agent from this key is where the key sits relative to its nono profile's read grants, never the key's mode"
      ∷ [])
  explain show (io what path source) = concat (
      lit "checking "
      ∷ what
      ∷ lit " "
      ∷ display path
      ∷ lit ": "
      ∷ show source
      ∷ lit " — refusing to serve without knowing who else can reach it"
      ∷ [])

  -- `policy_dir_inside_cwd`, `audit_log_inside_cwd` and `private_key_inside_cwd`
  unfoldable pub warning_text : Warning → Text
  warning_text (policy_dir_inside_cwd dir cwd) = concat (
      lit "SECURITY: the policy directory "
      ∷ display dir
      ∷ lit " is inside the current working directory "
      ∷ display cwd
      ∷ lit
          ". If a nono profile grants a sandboxed agent write access to this tree — `workdir.access: \"readwrite\"`, `nono run --allow-cwd`, a `filesystem.allow`/`write` entry, or a `command_policies.commands.*.from.*.sandbox.fs_write` grant — then the agent can drop `permit (principal, action, resource);` into a *.cedar file here and this daemon adopts it within the ~150 ms watch debounce, i.e. it decides its own approvals. File modes cannot prevent that: nono's sandboxes are path-based (Seatbelt/Landlock) and do not change uid, so the agent runs as the same user as this daemon. Treat this as a development shortcut only; a deployment points policy_dir at a path no profile grants write access to (shipped default: ~/.config/nono-cedar-pdp/policies). This check is only a proxy for that rule: it cannot read your profile, so it also fires when no agent is involved, and it stays silent for a policy directory outside the cwd that a profile does grant — on macOS the default groups grant write to /tmp, $TMPDIR and /var/folders. Check the real thing with: nono profile show <profile> --format manifest | jq -r '.filesystem.grants[] | select(.access | test(\"write\")) | .path'"
      ∷ [])
  warning_text (audit_log_inside_cwd log cwd) = concat (
      lit "SECURITY: the audit log "
      ∷ display log
      ∷ lit " is inside the current working directory "
      ∷ display cwd
      ∷ lit
          ". The audit trail is the compensating control for an unauthenticated webhook, so an agent granted write access to this tree can truncate or forge the record of what was decided — and file modes cannot prevent it, since the sandbox runs as the same user as this daemon. A deployment points audit_log at a path no profile grants write access to (shipped default: ~/.local/state/nono-cedar-pdp/decisions.jsonl)"
      ∷ [])
  warning_text (private_key_inside_cwd key cwd) = concat (
      lit "SECURITY: the TLS private key "
      ∷ display key
      ∷ lit " is inside the current working directory "
      ∷ display cwd
      ∷ lit
          ". Read access to this key is the ability to impersonate this daemon: nono verifies the certificate and nothing else, so an agent whose profile's read grants reach this tree can answer approvals in our place with a handshake nono cannot tell from ours — and those approvals appear in no audit trail, because they were never ours to record. A `read` or `readwrite` grant is enough: unlike the policy directory and the audit log, write access is not required. File modes cannot prevent it either, since the sandbox runs as the same user as this daemon. A deployment points the [tls] key at a path no profile grants read access to (shipped default: ~/.config/nono-cedar-pdp/tls/key.pem). Like this daemon's other containment warnings this is only a proxy for that rule: it cannot read your profile, so it also fires when no agent is involved, and it stays silent for a key outside the cwd that a profile does grant. Check the real thing with: nono profile show <profile> --format manifest | jq -r '.filesystem.grants[] | select(.access | test(\"read\")) | .path'"
      ∷ [])
