-- ===== src/Routes/Annotations.antt =====
-- controllers/routes.go: `parseAnnotations`. A nil map is the empty one: reads of both agree.
pub mod Precedence
use moat_operator.Base.{
  ℕ, Bool, true, false, Option, none, some, List, [], ◌∷◌, ◌++◌, Text, codes, Map, lookup,
  if◌then◌else◌, is_nil, option_or, first_some, trim_space, equal_fold,
}
use moat_operator.Routes.{AnnSettings, ann_prefix, nginx_prefix}
use moat_operator.Routes.Parse.{parse_bool, parse_uint, parse_size, csv}

-- `annSettings{}`
abbrev pub no_settings : AnnSettings
no_settings = record {
  ssl = none;
  http2 = none;
  force_https = none;
  healthcheck = none;
  disable_access_log = none;
  connect_timeout = none;
  read_timeout = none;
  write_timeout = none;
  idle_timeout = none;
  max_body_size = none;
  req_headers = [];
  resp_headers = [];
  server_aliases = [];
  passthrough = false;
  redirect_status = none;
  redirect_location = [];
  sticky = false;
  use_regex = false;
}

abbrev pub parsed : {A B : Type 0} → (A → Option B) → Option A → Option B
parsed p none = none
parsed p (some v) = p v

-- `if b := parseBool(v); b != nil { s.flag = *b }`
abbrev pub flag : Option Text → Bool
flag o = option_or (parsed parse_bool o) false

abbrev pub csv_or_none : Option Text → List Text
csv_or_none none = []
csv_or_none (some v) = csv v

module _ (ann : Map Text) where
  -- The closure `get`.
  abbrev pub get : Text → Option Text
  get k = lookup (ann_prefix ++ k) ann

  abbrev pub nginx : Text → Option Text
  nginx k = lookup (nginx_prefix ++ k) ann

  -- The synapse key first, then the nginx-compat key.
  abbrev pub either_key : Text → Option Text
  either_key k = first_some (get k) (nginx k)

-- The body of `parseAnnotations`, over its closure `get` and the lookup of either key.
module _ (get either_key : Text → Option Text) where
  unfoldable pub backend_protocol : Option Bool
  backend_protocol =
      let bp = option_or (either_key (codes "backend-protocol")) [] in
      if is_nil bp then none else some (equal_fold bp (codes "HTTPS"))

  unfoldable pub redirect_code : Text → ℕ → ℕ
  redirect_code code_key default_status =
      let code = option_or (either_key code_key) [] in
      if is_nil code then default_status else option_or (parse_uint code) default_status

  -- The closure `pickRedirect`.
  unfoldable pub pick_redirect : Text → Text → ℕ → AnnSettings → AnnSettings
  unfolding redirect_code
  pick_redirect url_key code_key default_status s =
      let loc = trim_space (option_or (either_key url_key) []) in
      if is_nil loc then s else record s {
        redirect_location = loc;
        redirect_status = some (redirect_code code_key default_status);
      }

  -- The assignments above the redirects.
  unfoldable pub plain_settings : AnnSettings
  unfolding backend_protocol
  plain_settings = record {
    ssl = backend_protocol;
    http2 = parsed parse_bool (get (codes "http2"));
    force_https =
        parsed parse_bool
          (first_some (get (codes "force-https")) (either_key (codes "ssl-redirect")));
    healthcheck = parsed parse_bool (get (codes "healthcheck"));
    disable_access_log = parsed parse_bool (get (codes "disable-access-log"));
    connect_timeout = parsed parse_uint (get (codes "connect-timeout"));
    read_timeout = parsed parse_uint (get (codes "read-timeout"));
    write_timeout = parsed parse_uint (get (codes "write-timeout"));
    idle_timeout = parsed parse_uint (get (codes "idle-timeout"));
    max_body_size = parsed parse_size (either_key (codes "proxy-body-size"));
    req_headers = csv_or_none (get (codes "request-headers"));
    resp_headers = csv_or_none (get (codes "response-headers"));
    server_aliases = csv_or_none (either_key (codes "server-alias"));
    passthrough = flag (either_key (codes "ssl-passthrough"));
    redirect_status = none;
    redirect_location = [];
    sticky = false;
    use_regex = flag (either_key (codes "use-regex"));
  }

  -- The settings of a map that is not nil: temporal first, so that permanent overwrites it.
  unfoldable pub recognised : AnnSettings
  unfolding plain_settings pick_redirect
  recognised =
      let t =
        pick_redirect (codes "temporal-redirect") (codes "temporal-redirect-code") 302
          plain_settings in
      let p = pick_redirect (codes "permanent-redirect") (codes "permanent-redirect-code") 301 t in
      record p { sticky = flag (get (codes "sticky-sessions")) }

unfoldable pub parse_annotations : Map Text → AnnSettings
unfolding recognised
parse_annotations ann = if is_nil ann then no_settings else recognised (get ann) (either_key ann)
