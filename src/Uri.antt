-- ===== src/Uri.antt =====
-- src/URI.h and src/URI.cpp. The regular expression is matched by `std::regex_match` and a port is
-- read by `std::stoi`, both of the C++ library: they are parameters.
use Prim.Native.String.{◌++◌ as append_text}
use forward_epics_to_kafka.Base.{
  ℕ, ◌%◌, ◌^◌, ◌≡◌, ◌≢◌, ◌⊎◌, String, Option, none, some, Result, ok, err, Exception, runtime_error,
  arith,
}

-- `group 6` is `Matches[6]`, and so on; no group is matched where the whole string is not.
pub record UriLibrary : Type 0 where
  pub group : String → ℕ → Option String
  pub stoi : String → Result ℕ

pub record Uri : Type 0 where
  pub host_port : String
  pub port : ℕ
  pub topic : String

abbrev pub empty_uri : Uri
empty_uri = record { host_port = ""; port = 0; topic = "" }

unfoldable pub get_uri_string : Uri → String
get_uri_string u = append_text u.host_port (append_text "/" u.topic)

module _ (lib : UriLibrary) where
  abbrev with_topic : String → Uri → Uri
  with_topic s u = elim (lib.group s 11) [ none ↦ u | some t ↦ record u { topic = t } ]

  -- `none`: no exception. The object keeps what was assigned before one.
  unfoldable pub parse : String → Uri → Uri × Option Exception
  parse s u = elim (lib.group s 6) [
    | none ↦ (u, some (runtime_error "Unable to extract host from the URI"))
    | some host ↦ elim (lib.group s 10) [
      | none ↦ (with_topic s (record u { host_port = host }), none)
      | some digits ↦ elim (lib.stoi digits) [
        | err e ↦ (record u { host_port = host }, some e)
        | ok n ↦ (with_topic s (record u { host_port = host; port = n % 2 ^ 32 }), none)
      ]
    ]
  ]

  -- The constructor `URI(URIString)`.
  unfoldable pub of_string : String → Result Uri
  unfolding parse
  of_string s = elim (parse s empty_uri).1 [ none ↦ ok (parse s empty_uri).0 | some e ↦ err e ]

  -- Parsing a string again changes nothing, whether or not it parses. Whether a string parses does not
  -- depend on the object that it is parsed into, nor does the host if it does.
  pub parse_again :
      (s : String) (u v : Uri)
      → (parse s (parse s u).0 ≡ parse s u)
        × ((parse s u).1 ≡ (parse s v).1)
        × (((parse s u).1 ≢ none) ⊎ ((parse s u).0.host_port ≡ (parse s v).0.host_port))
  unfolding parse
  parse_again s u v = ground arith
