-- ===== src/RateLimit/KeyExtractor.antt =====
-- providers/key-extractor and services/key-extractor.factory.ts. A request is its parts that the
-- extractors read; the search parameters are those of the platform's `URL`. A header that is no
-- single string is missing here.
use Prim.Native.Char.{Char, code}
use Prim.Native.String
use gateway_realtime.Common.{
  if◌then◌else◌, or_default, ◌==◌, nat_eq, string_eq, String, Bool, ◌&&◌, ◌||◌, Option, none, some,
}
use gateway_realtime.RateLimit.Service.{
  TransportType, over_rest, over_ws, RuleName, pre_connect, post_connect,
}

pub record WsRequest : Type 0 where
  pub forwarded_for : Option String
  pub remote_address : Option String
  pub token : Option String

pub record RestRequest : Type 0 where
  pub client_id : Option String
  pub authorization : Option String
  pub ip : String

-- A missing string and the empty one are false.
abbrev pub non_empty : Option String → Option String
non_empty none = none
non_empty (some text) = if text == "" then none else some text

-- `forwarded.split(',')[0]`
before_comma : String → String
before_comma String.[] = ""
before_comma (String.◌∷◌ c s) =
    let rest_of = String.◌∷◌ c (before_comma s) in if code c == b',' then "" else rest_of

is_space : Char → Bool
is_space c = code c == 32 || code c == 9 || code c == 10 || code c == 13

trim_start : String → String
unfolding is_space
trim_start String.[] = ""
trim_start (String.◌∷◌ c s) = if is_space c then trim_start s else String.◌∷◌ c s

-- Spaces are dropped from the end on the way back.
trim_end : String → String
unfolding is_space
trim_end String.[] = ""
trim_end (String.◌∷◌ c s) =
    let s' = trim_end s in if is_space c && (s' == "") then "" else String.◌∷◌ c s'

trim : String → String
unfolding trim_start trim_end
trim s = trim_end (trim_start s)

unfoldable pub get_client_ip : WsRequest → String
unfolding before_comma trim
get_client_ip req = elim (non_empty req.forwarded_for) [
  | some forwarded ↦ trim (before_comma forwarded)
  | none ↦ or_default (non_empty req.remote_address) "unknown"
]

unfoldable pub extract_ws_pre_connect : WsRequest → String
unfolding get_client_ip
extract_ws_pre_connect req = elim (non_empty req.token) [
  | some token ↦ String.◌++◌ (get_client_ip req) (String.◌++◌ ":" token)
  | none ↦ get_client_ip req
]

unfoldable pub extract_rest_pre_connect : RestRequest → String
extract_rest_pre_connect req = or_default (non_empty req.client_id) req.ip

unfoldable pub extract_rest_post_connect : RestRequest → String
extract_rest_post_connect req = or_default (non_empty req.authorization) req.ip

pub data Request : Type 0 where
  ws_request : WsRequest → Request
  rest_request : RestRequest → Request

abbrev pub transport_of : Request → TransportType
transport_of (ws_request r) = over_ws
transport_of (rest_request r) = over_rest

-- `getExtractor(transport, ruleName).extract(req)`; `none` is the error that no extractor is known.
unfoldable pub extract_key : RuleName → Request → Option String
unfolding extract_ws_pre_connect extract_rest_pre_connect extract_rest_post_connect
extract_key pre_connect (ws_request r) = some (extract_ws_pre_connect r)
extract_key post_connect (ws_request r) = none
extract_key pre_connect (rest_request r) = some (extract_rest_pre_connect r)
extract_key post_connect (rest_request r) = some (extract_rest_post_connect r)
