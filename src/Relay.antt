-- ===== src/Relay.antt =====
-- Requests to the download API: `upload` and `postDelta` of controllers/edge_producer.go and of
-- controllers/identity_producer.go, which differ in the path and in the content type of a baseline.
-- The HTTP client is a parameter: the status of the response, or none where there is none.
use moat_operator.Base.{
  ℕ, Bool, false, Option, none, some, [], ◌++◌, ◌/◌, Text, codes, eqb, if◌then◌else◌, is_nil,
}
use moat_operator.Resolver.{trim_suffix}

pub record Request : Type 0 where
  pub method : Text
  pub url : Text
  pub content_type : Text
  pub authorization : Option Text
  pub body : Text

-- The address, the key and the cluster that a producer is set up with.
pub record Target : Type 0 where
  pub upload_url : Text
  pub api_key : Text
  pub cluster_id : Text

abbrev pub HttpClient : Type 0
HttpClient = Request → Option ℕ

unfoldable pub cluster_query : Text → Text → Text
cluster_query sep cluster_id =
    if is_nil cluster_id then [] else sep ++ codes "cluster=" ++ cluster_id

abbrev pub authorization_of : Text → Option Text
authorization_of key = if is_nil key then none else some (codes "Bearer " ++ key)

unfoldable pub delta_request : Target → Text → Text → Request
unfolding trim_suffix
delta_request t path body = record {
  method = codes "POST";
  url = trim_suffix t.upload_url (codes "/") ++ path;
  content_type = codes "application/json";
  authorization = authorization_of t.api_key;
  body = body;
}

unfoldable pub upload_request : Target → Text → Text → Text → Text → Request
unfolding trim_suffix cluster_query
upload_request t path content_type version body = record {
  method = codes "PUT";
  url =
      trim_suffix t.upload_url (codes "/")
      ++ path
      ++ codes "?version="
      ++ version
      ++ cluster_query (codes "&") t.cluster_id;
  content_type = content_type;
  authorization = authorization_of t.api_key;
  body = body;
}

-- `resp.StatusCode/100 == 2`
abbrev pub is_success : Option ℕ → Bool
is_success none = false
is_success (some status) = eqb (status / 100) 2

-- A delta whose encoding fails is not sent.
unfoldable pub post_delta : HttpClient → Target → Text → Option Text → Bool
unfolding delta_request
post_delta client t path none = false
post_delta client t path (some body) = is_success (client (delta_request t path body))

unfoldable pub upload : HttpClient → Target → Text → Text → Text → Text → Bool
unfolding upload_request
upload client t path content_type version body =
    is_success (client (upload_request t path content_type version body))
