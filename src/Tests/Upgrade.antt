-- ===== src/Tests/Upgrade.antt =====
-- Upgrade requests: src/ws/handshake.rs.
use hcnet.Base.{ℕ, ◌≡◌, ◌↔◌, refl, List, Option, some, codes, length, ◌==◌, if◌then◌else◌}
use hcnet.Error.{ok}
use hcnet.Ws.Handshake.{HandshakeApi, returned, panicked, build_request}
use hcnet.Ws.Handshake.Laws.{IsFatal, Answered, build_request_panics, build_request_status}

-- The three headers that the code asks for; they differ in length.
pub record Headers : Type 0 where
  pub key : Option (List ℕ)
  pub protocol : Option (List ℕ)
  pub version : Option (List ℕ)

-- An encoding that is no encoding, and a hash that is the text itself.
abbrev pub plain_api : HandshakeApi
plain_api = record {
  base64_encode = λ bs. bs;
  base64_decode = λ bs. some bs;
  sha1 = λ bs. bs;
  Request = Headers;
  header = λ r name.
      if length name == 17 then r.key else if length name == 22 then r.protocol else r.version;
  Response = ℕ;
  respond = λ n hs body. n;
  status = λ n. n;
  status-respond = λ n hs body. refl;
}

abbrev commas : Headers
commas = record {
  key = some (codes "0123456789abcdef");
  protocol = some (codes ", ,");
  version = some (codes "13");
}

build_request_panics_example :
    (build_request {E = ℕ} plain_api commas ≡ panicked) ↔ IsFatal ℕ plain_api commas
build_request_panics_example = build_request_panics ℕ plain_api commas

abbrev old : Headers
old = record commas { version = some (codes "8") }

old_answer : build_request {E = ℕ} plain_api old ≡ returned (ok 400)
unfolding build_request
old_answer = refl

build_request_status_example : Answered ℕ plain_api old 400
build_request_status_example = build_request_status ℕ plain_api old 400 old_answer
