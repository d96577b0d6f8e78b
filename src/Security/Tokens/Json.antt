-- ===== src/Security/Tokens/Json.antt =====
-- Tokens as JSON: `serializeProxyUserTokenToJSON`, `deserializeProxyUserToken` and
-- `getEzSecurityTokenJsonExpiration` of EzSecurityTokenUtils.cpp, and the tests of expiry in the
-- header. The parser and the printer of picojson are the record `PicoJson`.
pub mod RoundTrip
use ezbake_common_cpp.Common.Int.{ℤ, int_ltb}
use ezbake_common_cpp.Common.Result.{Result, ok, throw, runtime_error, invalid_argument, ◌>>=◌}
use ezbake_common_cpp.Common.Sort.{text_lt}
use ezbake_common_cpp.Common.{
  Bool, true, false, not, Option, none, some, ◌++◌, if◌then◌else◌, Text, codes, text_eq,
}
use ezbake_common_cpp.Security.Tokens.{X509Info, ProxyUserToken}

-- `picojson::value`; an object is a `std::map`, in the order of its keys. A number that is no
-- `int64_t` is kept as its text.
mutual
  pub data Value : Type 0 where
    null : Value
    boolean : Bool → Value
    int64 : ℤ → Value
    double : Text → Value
    string : Text → Value
    array : Values → Value
    object : Members → Value

  pub data Values : Type 0 where
    no_values : Values
    value : Value → Values → Values

  pub data Members : Type 0 where
    no_members : Members
    member : Text → Value → Members → Members

-- `picojson::parse` gives the value, or `none` with an error text.
pub record PicoJson : Type 0 where
  pub parse : Text → Option Value
  pub parse_error : Text → Text
  pub serialize : Value → Text

-- `token_obj[key] = v` on a `std::map`
unfoldable pub set_member : Text → Value → Members → Members
unfolding text_eq text_lt
set_member key v no_members = member key v no_members
set_member key v (member k w m) =
    let rest = set_member key v m in
    if text_eq k key
    then member k v m
    else if text_lt key k
    then member key v (member k w m)
    else member k w rest

-- `token_obj[key]`, which is null where there is no such key
unfoldable pub get_member : Text → Members → Value
unfolding text_eq
get_member key no_members = null
get_member key (member k v m) = if text_eq k key then v else get_member key m

-- `x509["issuer"] = …`, if the field is set
unfoldable pub set_if_text : Text → Option Text → Members → Members
unfolding set_member
set_if_text key none m = m
set_if_text key (some s) m = set_member key (string s) m

unfoldable pub set_if_int : Text → Option ℤ → Members → Members
unfolding set_member
set_if_int key none m = m
set_if_int key (some n) m = set_member key (int64 n) m

unfoldable pub x509_members : X509Info → Members
unfolding set_member set_if_text
x509_members x509 =
    set_if_text (codes "issuer") x509.issuer
      (set_member (codes "subject") (string x509.subject) no_members)

unfoldable pub token_members : ProxyUserToken → Members
unfolding set_member set_if_text set_if_int x509_members
token_members token = set_if_int (codes "notBefore") token.not_before (
    set_if_text (codes "issuedFor") token.issued_for (
      set_member (codes "notAfter") (int64 token.not_after) (
        set_member (codes "issuedTo") (string token.issued_to) (
          set_member (codes "issuedBy") (string token.issued_by)
            (set_member (codes "x509") (object (x509_members token.x509)) no_members)))))

-- `!v.is<std::string>()`, with the exception for it
unfoldable pub need_text : Text → Value → Result Text
need_text message (string s) = ok s
need_text message null = throw (invalid_argument message)
need_text message (boolean b) = throw (invalid_argument message)
need_text message (int64 n) = throw (invalid_argument message)
need_text message (double s) = throw (invalid_argument message)
need_text message (array vs) = throw (invalid_argument message)
need_text message (object m) = throw (invalid_argument message)

unfoldable pub need_int : Text → Value → Result ℤ
need_int message (int64 n) = ok n
need_int message null = throw (invalid_argument message)
need_int message (boolean b) = throw (invalid_argument message)
need_int message (double s) = throw (invalid_argument message)
need_int message (string s) = throw (invalid_argument message)
need_int message (array vs) = throw (invalid_argument message)
need_int message (object m) = throw (invalid_argument message)

unfoldable pub need_object : Text → Value → Result Members
need_object message (object m) = ok m
need_object message null = throw (invalid_argument message)
need_object message (boolean b) = throw (invalid_argument message)
need_object message (int64 n) = throw (invalid_argument message)
need_object message (double s) = throw (invalid_argument message)
need_object message (string s) = throw (invalid_argument message)
need_object message (array vs) = throw (invalid_argument message)

unfoldable pub is_null : Value → Bool
is_null null = true
is_null (boolean b) = false
is_null (int64 n) = false
is_null (double s) = false
is_null (string s) = false
is_null (array vs) = false
is_null (object m) = false

-- `if (!v.is<picojson::null>()) { … }`
unfoldable pub text_if_there : Text → Value → Result (Option Text)
unfolding need_text is_null
text_if_there message v = if is_null v then ok none else need_text message v >>= λ s. ok (some s)

unfoldable pub int_if_there : Text → Value → Result (Option ℤ)
unfolding need_int is_null
int_if_there message v = if is_null v then ok none else need_int message v >>= λ n. ok (some n)

unfoldable pub read_x509 : Members → Result X509Info
unfolding need_text text_if_there get_member
read_x509 m = do
  subject ←
      need_text
        (codes "JSON does not have required field \"x509.subject\" or the field is not a string")
        (get_member (codes "subject") m)
  issuer ←
      text_if_there (codes "JSON field \"x509.issuer\" is not a string")
        (get_member (codes "issuer") m)
  ok (record { subject = subject; issuer = issuer })

unfoldable pub read_token : Members → Result ProxyUserToken
unfolding need_text need_int need_object text_if_there int_if_there get_member read_x509
read_token m = do
  issued_by ←
      need_text
        (codes "JSON does not have required field \"issuedBy\" or the field is not a string")
        (get_member (codes "issuedBy") m)
  issued_to ←
      need_text
        (codes "JSON does not have required field \"issuedTo\" or the field is not a string")
        (get_member (codes "issuedTo") m)
  issued_for ←
      text_if_there (codes "JSON field \"issuedFor\" is not a string")
        (get_member (codes "issuedFor") m)
  not_after ←
      need_int (codes "JSON does not have required field \"notAfter\" or the field is not a number")
        (get_member (codes "notAfter") m)
  not_before ←
      int_if_there (codes "JSON field \"notBefore\" is not a number")
        (get_member (codes "notBefore") m)
  members ←
      need_object
        (codes "JSON does not have required field \"x509\" or the field is not a JSON object")
        (get_member (codes "x509") m)
  x509 ← read_x509 members
  ok (record {
    x509 = x509;
    issued_by = issued_by;
    issued_to = issued_to;
    issued_for = issued_for;
    not_after = not_after;
    not_before = not_before;
  })

module _ (json : PicoJson) where
  unfoldable pub serialize_proxy_user_token_to_json : ProxyUserToken → Text
  unfolding token_members
  serialize_proxy_user_token_to_json token = json.serialize (object (token_members token))

  -- The object that a text holds.
  unfoldable pub parse_object : Text → Result Members
  unfolding need_object
  parse_object s = elim (json.parse s) [
    | none ↦
        throw (runtime_error (codes "Exception in deserializing token: " ++ json.parse_error s))
    | some v ↦ need_object (codes "JSON is not an object") v
  ]

  unfoldable pub deserialize_proxy_user_token : Text → Result ProxyUserToken
  unfolding parse_object read_token
  deserialize_proxy_user_token s = parse_object s >>= λ m. read_token m

  unfoldable pub get_ez_security_token_json_expiration : Text → Result ℤ
  unfolding parse_object need_int get_member
  get_ez_security_token_json_expiration s = do
    m ← parse_object s
    need_int (codes "JSON does not have required field \"expires\" or the field is not a number")
        (get_member (codes "expires") m)

  unfoldable pub get_proxy_token_response_expiration : Text → Result ℤ
  unfolding deserialize_proxy_user_token
  get_proxy_token_response_expiration s = do
    token ← deserialize_proxy_user_token s
    ok token.not_after

  -- `!(expiration > currentTimeMillis())`
  unfoldable pub is_ez_security_token_json_expired : ℤ → Text → Result Bool
  unfolding get_ez_security_token_json_expiration int_ltb
  is_ez_security_token_json_expired now s = do
    expires ← get_ez_security_token_json_expiration s
    ok (not (int_ltb now expires))

  unfoldable pub is_proxy_token_response_expired : ℤ → Text → Result Bool
  unfolding get_proxy_token_response_expiration int_ltb
  is_proxy_token_response_expired now s = do
    expires ← get_proxy_token_response_expiration s
    ok (not (int_ltb now expires))
