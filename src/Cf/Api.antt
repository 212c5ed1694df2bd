-- ===== src/Cf/Api.antt =====
-- internal/cf/api.go: the requests that the client sends, and the service as a parameter. A request
-- stands for its method, path and body, a response for the decoded `result` of the envelope.
use homelab_homepage.Prelude.{ℕ, String, Bool, List}
use homelab_homepage.Cf.Act.{Act}

pub record DnsRecord : Type 0 where
  pub id : String
  pub content : String

-- The two fields of a rule that the code knows.
pub record IngressRule : Type 0 where
  pub hostname : String
  pub service : String

-- A rule as the service keeps it: with the pattern of paths that it is for, and the JSON of its
-- settings for the origin; both are empty where they are not given.
pub record IngressEntry : Type 0 where
  pub hostname : String
  pub service : String
  pub path : String
  pub origin_request : String

-- What `encoding/json` reads of an entry into the two fields, and what it writes of them.
abbrev pub decoded : IngressEntry → IngressRule
decoded e = record { hostname = e.hostname; service = e.service }

abbrev pub encoded : IngressRule → IngressEntry
encoded r = record { hostname = r.hostname; service = r.service; path = ""; origin_request = "" }

-- The body of a new DNS record.
pub record DnsParams : Type 0 where
  pub kind : String
  pub name : String
  pub content : String
  pub ttl : ℕ
  pub proxied : Bool

pub data Request : Type 0 where
  post_dns : String → DnsParams → Request
  patch_dns : String → String → String → Request
  delete_dns : String → String → Request
  find_dns : String → String → Request
  post_tunnel : String → String → String → Request
  get_token : String → String → Request
  delete_tunnel : String → String → Request
  get_config : String → String → Request
  put_config : String → String → List IngressRule → Request

-- `other` is a result of another shape: its decoding fails.
pub data Response : Type 0 where
  record_of : String → Response
  records : List DnsRecord → Response
  tunnel_of : String → Response
  token_of : String → Response
  config : List IngressEntry → Response
  other : Response

-- The service: `send` is `apiClient.do`, with the failures of transport and service as errors.
pub record Api : Type 1 where
  pub World : Type 0
  pub send : Request → Act World Response
