-- ===== src/Tests/Toy.antt =====
-- A small stand-in for the crate that evaluates policies, and the daemon's state on top of it.
use nono_cedar_pdp.Base.{
  ◌≡◌, refl, sym, ap, ◌∙◌, subst, Bool, Bytes, true, false, none, some, List, [], ◌∷◌, ◌++◌, map,
  length, if◌then◌else◌, Text, lit, text_eq, ok,
}
use nono_cedar_pdp.Json.{JsonReader}
use nono_cedar_pdp.Decision.{permit, forbid, Response}
use nono_cedar_pdp.Cedar.{Cedar}
use nono_cedar_pdp.Query.{CallerKind, endpoint_target, PolicyQuery}
use nono_cedar_pdp.Wire.{WebhookEnvelope, endpoint}
use nono_cedar_pdp.Config.{Config, SocketAddr, default_bind}
use nono_cedar_pdp.Loader.{Listing, Env, LoadedPolicies}
use nono_cedar_pdp.FilePaths.{FilePath, Fs}
use nono_cedar_pdp.FilePaths.Resolution.{IsResolver}
use nono_cedar_pdp.Engine.{Engine}
use nono_cedar_pdp.Server.{HeaderMap, Outside, AppState}
use nono_cedar_pdp.Server.Tls.{Net}
use nono_cedar_pdp.Process.{World}
use nono_cedar_pdp.Watcher.{Watch, Round}

-- A policy that permits everything.
pub record ToyPolicy : Type 0 where
  pub name : Text
  pub id : Text

abbrev authorize : List ToyPolicy → Response
authorize [] = record { decision = forbid; reasons = []; errors = [] }
authorize (p ∷ ps) = record { decision = permit; reasons = map (λ q. q.id) (p ∷ ps); errors = [] }

abbrev pub toy : Cedar
toy = record {
  Schema = Unit;
  Policy = ToyPolicy;
  PolicySet = List ToyPolicy;
  EntityUid = Text;
  Expr = Text;
  Entity = Text;
  Entities = List Text;
  Context = List (Text × Text);
  Request = Text × Text × Text;
  uid_from_str = λ t. ok t;
  new_string = λ t. t;
  new_set = λ ts. [];
  new_long = λ n. n ∷ [];
  new_no_attrs = λ u parents. u;
  new_entity = λ u attrs parents. ok u;
  entity_uid = λ e. e;
  from_entities = λ es s. ok es;
  from_pairs = λ ps. ok ps;
  new_request = λ p a r x s. ok (p, a, r);
  is_authorized = λ r ps es. authorize ps;
  empty_set = [];
  set_from_str = λ t. ok (record { name = []; id = t } ∷ []);
  add = λ ps p. ok (ps ++ p ∷ []);
  policies = λ ps. ps;
  num_of_policies = λ ps. length ps;
  policy_id = λ p. p.id;
  is_permit = λ p. true;
  id_annotation = λ p. none;
  new_id = λ p t. record p { id = t };
  validation_passed = λ s ps. true;
  validation_errors = λ s ps. [];
}

abbrev pub env : Env
env = record { sha256 = λ bs. bs; to_string_lossy = λ bs. bs; now = 7 }

-- A directory of one policy file.
abbrev pub listing : Listing Text
listing = ok (ok (record { name = lit "a.cedar"; is_file = true; contents = ok (lit "x") }) ∷ [])

abbrev pub loaded : LoadedPolicies toy
loaded = record {
  set = record { name = []; id = lit "x" } ∷ [];
  generation = 1;
  loaded_at = 7;
  files = lit "a.cedar" ∷ [];
  content_hash = [];
}

abbrev pub serving : Engine toy
serving = record { schema = tt; policy_dir = lit "/p"; current = loaded }

abbrev pub get_query : Text → PolicyQuery
get_query path = record {
  agent = lit "dev";
  session_id = lit "proxy";
  caller = lit "proxy";
  caller_kind = CallerKind.session;
  request_id = lit "r1";
  backend = lit "cedar";
  reason = none;
  target = endpoint_target (record {
    route_id = lit "api";
    upstream = lit "https://h";
    method = lit "GET";
    path = path;
    rule_label = lit "rule";
    child_pid = 3;
  });
}

abbrev pub config : Config
config = record {
  bind = default_bind;
  policy_dir = lit "/p";
  audit_log = lit "/l";
  agents = (lit "cedar", lit "dev") ∷ [];
  tls = none;
}

abbrev pub envelope : WebhookEnvelope
envelope = record {
  backend = lit "cedar";
  request = endpoint (record {
    request_id = lit "r1";
    reason = none;
    route_id = lit "api";
    upstream = lit "https://h";
    method = lit "GET";
    path = lit "/v1";
    rule_label = lit "rule";
    child_pid = 3;
    session_id = lit "made up";
  });
}

-- Values that are texts, and have each field, with their own text for its value.
abbrev pub texts : JsonReader
texts = record {
  Value = Text;
  from_slice = λ bs. some bs;
  get = λ v key. some v;
  as_str = λ v. some v;
  as_array = λ v. none;
  as_object = λ v. none;
}

abbrev pub outside : Outside Text
outside = record {
  lossy = λ bs. bs;
  debug = λ t. t;
  parse_envelope = λ bs. ok envelope;
  json = texts;
  ts = lit "now";
  eval_us = 5;
}

abbrev pub headers : HeaderMap
headers name =
    if text_eq name (lit "content-type") then some (lit "application/json; charset=utf-8") else none

abbrev pub state : AppState toy
state = record { engine = serving; config = config; audit = []; last_reload = none }

abbrev pub watch : Watch toy
watch = record { engine = serving; at_risk = false; audit = []; last_reload = none }

-- The user's own tree, with one policy file in each directory.
abbrev pub home : Fs Text
home = record {
  euid = 501;
  metadata = λ path. ok (record { uid = 501; mode = 0o100600; is_dir = true });
  listing = λ dir. ok (ok (record { name = lit "a.cedar"; is_file = true; contents = ok [] }) ∷ []);
  canonicalize = λ path. if path.is_absolute then some path else none;
  current_dir = some (record { is_absolute = true; names = lit "work" ∷ [] });
}

abbrev pub round : Round toy Text
round = record {
  fs = home;
  path_of = λ t. record { is_absolute = true; names = t ∷ [] };
  explain = λ e. lit "untrusted";
  env = env;
  listing = listing;
  show = λ e. lit "error";
  display = λ bs. bs;
  now = (lit "t0", lit "t1");
}

absolute_some :
    (b : Bool) (p r : FilePath) → (if b then some p else none) ≡ some r → (b ≡ true) × (p ≡ r)
absolute_some true p r h = (refl, cc)
absolute_some false p r h = absurd (cc)

-- Where each absolute path resolves to itself, and no relative one does.
pub home-IsResolver : IsResolver home
home-IsResolver = record {
  absolute = λ p r h.
      let (a, q) = absolute_some p.is_absolute p r h in ap (λ x. x.is_absolute) (sym q) ∙ a;
  fixed = λ p r h.
      let (a, q) = absolute_some p.is_absolute p r h in
      subst (λ x. home.canonicalize x ≡ some r) q h;
  through = λ p r names h.
      let (a, q) = absolute_some p.is_absolute p r h in
      ap (λ x. home.canonicalize (record x { names = names ++ x.names })) q;
  cwd_absolute = λ c h.
      ap (λ x. x.is_absolute)
        (sym (absolute_some true (record { is_absolute = true; names = lit "work" ∷ [] }) c h).1);
}

-- A TLS library that takes every pair, and sockets that are always there.
abbrev pub net : Net Text
net = record {
  Cert = Bytes;
  Key = Bytes;
  ServerConfig = List Bytes × Bytes;
  ClientConfig = Unit;
  Listener = SocketAddr;
  Socket = SocketAddr;
  read = λ path. ok path;
  certs = λ bs. ok (bs ∷ []);
  private_key = λ bs. ok (some bs);
  protocol_versions = ok tt;
  with_single_cert = λ chain key. ok (chain, key);
  with_alpn = λ names config. config;
  with_platform_verifier = ok tt;
  client_alpn = λ names client. client;
  connect = λ addr. ok addr;
  set_timeouts = λ socket. ok tt;
  handshake = λ config client ip socket. ok tt;
  bind_any = ok default_bind;
  bind = λ addr. ok addr;
  local_addr = λ listener. ok listener;
  set_nonblocking = λ listener. ok tt;
  from_tcp = λ listener. ok tt;
  end_of_service = ok tt;
}

abbrev name_of : List Bytes → Text
name_of [] = []
name_of (n ∷ ns) = n

-- The process in the home directory, with a configuration that names a pair.
abbrev pub world : World toy net
world = record {
  read_to_string = λ path. ok path;
  from_str = λ text. ok (record {
    bind = none;
    policy_dir = lit "p";
    audit_log = some (lit "l");
    agents = (lit "cedar", lit "dev") ∷ [];
    tls = some (record { cert = lit "cert"; key = lit "key" });
  });
  home = none;
  fs = home;
  path_of = λ t. record { is_absolute = true; names = t ∷ [] };
  text_of = λ p. name_of p.names;
  compiled = ok tt;
  env = env;
  listing = λ dir. listing;
  found = λ path. record {
    parent_ok = true;
    opens_read = true;
    opens_append = true;
    contents = [];
    mode = 0o600;
    chmod_ok = true;
  };
  watch = λ dir. ok tt;
  now = lit "now";
  eval_us = 5;
  display = λ bs. bs;
  debug = λ t. t;
  read = λ path. ok path;
  parse_envelope = λ bs. ok envelope;
}
