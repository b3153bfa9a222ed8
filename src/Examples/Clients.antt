-- ===== src/Examples/Clients.antt =====
-- proxy-server/app/admin.py at concrete inputs: a client that is created, changed and let in.
use open_yzj.Prelude.{
  List, Result, String, [], false, inr, none, ok, refl, some, strip, ℕ, ◌∷◌, ◌≡◌,
}
use open_yzj.Bytes.{encode, parse_int}
use open_yzj.Secrets.{Fernet, Recovers, encrypt_secret}
use open_yzj.Value.{Fields, str}
use open_yzj.Http.{Request, lookup}
use open_yzj.Mongo.{find_first, where_eq}
use open_yzj.Mongo.Memory.{Docs, matches_in, memory, memory-IsDocumented, memory-IsReachable}
use open_yzj.Proxy.Auth.{require_proxy_auth}
use open_yzj.Proxy.Clients.{
  ProxyClientCreateReq, ProxyClientUpdateReq, client_doc, create_proxy_client, creates, run,
  to_public, updates,
}
use open_yzj.Proxy.Clients.Directory.{IsRegistry, Promises, directory, run-Promises}
use open_yzj.Proxy.Clients.Registry.{AdminCall, run_all, run_all-IsRegistry}
use open_yzj.Proxy.Clients.Enrolment.{IsSigned, create_proxy_client-require_proxy_auth, crypto}
use open_yzj.Examples.Access.{no_docs}

abbrev pub fernet : Fernet
fernet = record {
  sha256 = λ bs. bs;
  urlsafe_b64encode = λ bs. bs;
  encrypt = λ key salt bs. "sealed";
  decrypt = λ key text. ok (encode "secret");
  decode_utf8 = λ bs. ok "secret";
}

pub fernet-Recovers : Recovers fernet "app key" [] "secret"
fernet-Recovers = record { decrypts = refl; decodes = refl }

abbrev seal : String → String
seal = encrypt_secret fernet "app key" []

abbrev new_client : ProxyClientCreateReq
new_client = record {
  client_name = "c2";
  api_key = "k2";
  api_secret = "secret";
  allowed_endpoints = "/api/proxy" ∷ [];
  rate_limit = record { negative = false; magnitude = 60 };
  callback_url = "";
}

abbrev rename : ProxyClientUpdateReq
rename = record {
  client_name = some "C2";
  api_secret = none;
  allowed_endpoints = none;
  rate_limit = none;
  status = some "disabled";
  callback_url = none;
}

no_clients-IsRegistry : IsRegistry (memory-IsDocumented.docs no_docs "proxy_clients")
no_clients-IsRegistry = record { ids = tt; keys = tt; named = tt }

-- two creations of the same client and a change of it
abbrev calls : List AdminCall
calls =
    record { now = 5; encrypt = seal; call = creates new_client }
    ∷ record { now = 6; encrypt = seal; call = creates new_client }
    ∷ record { now = 7; encrypt = seal; call = updates "c2" rename }
    ∷ []

run_all_example :
    IsRegistry (memory-IsDocumented.docs (run_all memory calls no_docs) "proxy_clients")
run_all_example =
    run_all-IsRegistry memory memory-IsDocumented memory-IsReachable calls no_docs
      no_clients-IsRegistry

run_example :
    Promises seal 6
      (creates new_client)
      (directory memory memory-IsDocumented memory-IsReachable seal 6 no_docs)
      (run memory seal 6 (creates new_client) no_docs).0
      (directory memory memory-IsDocumented memory-IsReachable seal 6
        (run memory seal 6 (creates new_client) no_docs).1)
run_example =
    run-Promises memory memory-IsDocumented memory-IsReachable seal 6 (creates new_client) no_docs
      no_clients-IsRegistry

abbrev hmac : List ℕ → List ℕ → String
hmac key bytes = "good"

abbrev knock : Request
knock = record {
  method = "POST";
  path = "/api/proxy/v1/x";
  headers =
      ("x-proxy-api-key", "k2")
      ∷ ("x-proxy-timestamp", "1000")
      ∷ ("x-proxy-signature", "good")
      ∷ [];
  query_params = [];
  client_host = none;
  body = [];
}

knock-IsSigned : IsSigned hmac new_client 1010 knock
unfolding lookup parse_int strip encode
knock-IsSigned = record {
  timestamp = "1000";
  time = record { negative = false; magnitude = 1000 };
  key = refl;
  key_given = refl;
  sent = refl;
  sent_given = refl;
  parses = refl;
  near = refl;
  signed = refl;
  ascii = refl;
  hex_given = refl;
  allowed = inr refl;
}

abbrev enrolled : Result Fields × Docs
enrolled = create_proxy_client memory seal 5 new_client no_docs

enrolled_ok :
    create_proxy_client memory seal 5 new_client no_docs
    ≡ (ok (to_public 5 (client_doc 5 new_client (seal "secret"))), enrolled.1)
unfolding create_proxy_client find_first
enrolled_ok = refl

create_proxy_client_example :
    require_proxy_auth memory (crypto hmac fernet "app key" [] new_client) 1010 knock enrolled.1
    ≡ ok "c2"
create_proxy_client_example =
    create_proxy_client-require_proxy_auth hmac fernet "app key" [] new_client memory
      memory-IsDocumented 5 1010 no_docs enrolled.1
      (to_public 5 (client_doc 5 new_client (seal "secret"))) knock
      (find_first (matches_in (where_eq "api_key" (str "k2"))) (enrolled.1 "proxy_clients"))
      enrolled_ok knock-IsSigned fernet-Recovers refl
