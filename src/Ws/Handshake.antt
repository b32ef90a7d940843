-- ===== src/Ws/Handshake.antt =====
-- src/ws/handshake.rs: the answer of a server to an upgrade request. base64, SHA-1 and webparse's
-- requests and responses are parameters.
pub mod Laws
use hcnet.Base.{
  eq_bytes, ℕ, ◌≡◌, Bool, true, false, not, ◌&&◌, ◌||◌, List, [], ◌∷◌, ◌++◌, Option, none, some,
  length, codes, ◌==◌, if◌then◌else◌,
}
use hcnet.Error.{NetResult, ok, err, ws, protocol_error}

pub record HandshakeApi : Type 1 where
  pub base64_encode : List ℕ → List ℕ
  pub base64_decode : List ℕ → Option (List ℕ)
  pub sha1 : List ℕ → List ℕ
  pub Request : Type 0
  -- `req.headers().get_str_value(name)`.
  pub header : Request → List ℕ → Option (List ℕ)
  pub Response : Type 0
  -- `Response::builder()` with a status, headers and a body.
  pub respond : ℕ → List (List ℕ × List ℕ) → List ℕ → Response
  pub status : Response → ℕ
  pub status-respond :
      (n : ℕ) (hs : List (List ℕ × List ℕ)) (body : List ℕ) → status (respond n hs body) ≡ n

-- A call that may panic.
pub data Outcome {ℓ} (A : Type ℓ) : Type ℓ where
  returned : A → Outcome A
  panicked : Outcome A

abbrev pub magic_guid : List ℕ
magic_guid = codes "258EAFA5-E914-47DA-95CA-C5AB0DC85B11"

is_13 : Option (List ℕ) → Bool
unfolding eq_bytes
is_13 none = false
is_13 (some v) = eq_bytes v (codes "13")

-- `protocol.split(|c| c == ',' || c == ' ')`.
abbrev pub is_separator : ℕ → Bool
is_separator c = c == b',' || c == b' '

extend : ℕ → List (List ℕ) → List (List ℕ)
extend c [] = (c ∷ []) ∷ []
extend c (piece ∷ pieces) = (c ∷ piece) ∷ pieces

split : List ℕ → List (List ℕ)
unfolding extend
split [] = [] ∷ []
split (c ∷ cs) = if is_separator c then [] ∷ split cs else extend c (split cs)

-- `.filter(|s| !s.is_empty())`.
non_empty : List (List ℕ) → List (List ℕ)
non_empty [] = []
non_empty ([] ∷ pieces) = non_empty pieces
non_empty ((c ∷ piece) ∷ pieces) = (c ∷ piece) ∷ non_empty pieces

pub protocols : List ℕ → List (List ℕ)
unfolding split non_empty
protocols protocol = non_empty (split protocol)

-- `protocol.unwrap_or("chat".to_string())`.
or_chat : Option (List ℕ) → List ℕ
or_chat none = codes "chat"
or_chat (some protocol) = protocol

pub bad_version : (api : HandshakeApi) → api.Response
bad_version api = api.respond 400 [] (codes "invalid websocket version")

module _ {E : Type 0} (api : HandshakeApi) where
  open api use {Request, Response, header, respond}

  pub build_accept : List ℕ → NetResult E (List ℕ)
  build_accept key = elim (api.base64_decode key) [
    | some vec ↦
        if length vec == 16
        then ok (api.base64_encode (api.sha1 (key ++ magic_guid)))
        else err (ws (protocol_error (codes "Sec-WebSocket-Key must be 16 bytes")))
    | none ↦ err (ws (protocol_error (codes "Invalid Sec-WebSocket-Accept")))
  ]

  -- The response that switches protocols; `protocols[0]` panics on an empty list.
  switching : List ℕ → List (List ℕ) → Outcome (NetResult E Response)
  switching accept [] = panicked
  switching accept (protocol ∷ _) = returned (
      ok (
        respond 101
          ((codes "Upgrade", codes "websocket")
            ∷ (codes "Connection", codes "Upgrade")
            ∷ (codes "Sec-WebSocket-Accept", accept)
            ∷ (codes "Sec-WebSocket-Protocol", protocol)
            ∷ [])
          []))

  answer : List ℕ → Option (List ℕ) → Outcome (NetResult E Response)
  unfolding switching or_chat
  answer key protocol = elim (build_accept key) [
    | ok accept ↦ switching accept (protocols (or_chat protocol))
    | err e ↦ returned (err e)
  ]

  check : Option (List ℕ) → Option (List ℕ) → Bool → Outcome (NetResult E Response)
  unfolding answer bad_version
  check none protocol version = returned (ok (bad_version api))
  check (some key) protocol false = returned (ok (bad_version api))
  check (some key) protocol true = answer key protocol

  unfoldable pub build_request : Request → Outcome (NetResult E Response)
  unfolding check is_13
  build_request req =
      check (header req (codes "Sec-WebSocket-Key")) (header req (codes "Sec-WebSocket-Protocol"))
        (is_13 (header req (codes "Sec-WebSocket-Version")))
