-- ===== src/Ws/Web.antt =====
-- What the websocket takes from webparse and rand: URLs, the text of requests and responses, their
-- incremental parsers, and the frames of RFC 6455. Random bytes are arguments.
use hcnet.Base.{ℕ, Bool, List, Option}
use hcnet.Message.{CloseDataApi, OwnedMessage}
use hcnet.Error.{NetResult}
use hcnet.Ws.Handshake.{HandshakeApi}

pub data Scheme : Type 0 where
  ws wss other : Scheme

-- How `parse_buffer` ends: the number of bytes taken, `HttpError::Partial`, or another error.
pub data Parsed (E : Type 0) : Type 0 where
  parsed : ℕ → Parsed E
  partial : Parsed E
  failed : E → Parsed E

-- A value that is parsed a piece at a time: `parse_buffer` changes it, too.
pub record Parser (E : Type 0) (P : Type 0) : Type 0 where
  pub new : P
  pub parse_buffer : P → List ℕ → Parsed E × P
  pub is_partial : P → Bool

-- How `read_dataframe_with_limit` ends: a frame, `UnexpectedEof`, or another error.
pub data FrameRead (E : Type 0) (F : Type 0) : Type 0 where
  frame : F → FrameRead E F
  eof : FrameRead E F
  failed : E → FrameRead E F

pub record WebApi (E : Type 0) : Type 1 where
  pub handshake : HandshakeApi
  pub open handshake use {Request, Response, status}
  pub close_data : CloseDataApi
  pub open close_data use {CloseData}
  pub Url : Type 0
  pub scheme : Url → Scheme
  pub domain : Url → Option (List ℕ)
  pub port : Url → Option ℕ
  -- The bytes of a GET request for the URL with these headers.
  pub http1_data : Url → List (List ℕ × List ℕ) → NetResult E (List ℕ)
  -- `res.serialize(&mut buf)`: how it ends, and what it puts into the buffer.
  pub serialize : Response → NetResult E (Unit {0}) × List ℕ
  pub requests : Parser E Request
  pub responses : Parser E Response
  pub DataFrame : Type 0
  pub is_last : DataFrame → Bool
  -- On the unread bytes, with the flag and the limit: how it ends, and how many bytes it has taken.
  pub read_dataframe_with_limit : List ℕ → Bool → ℕ → FrameRead E DataFrame × ℕ
  pub from_dataframes : List DataFrame → NetResult E (OwnedMessage CloseData)
  -- `msg.write_to(&mut buf, mask)`: how it ends, and what it puts into the buffer.
  pub write_to : OwnedMessage CloseData → Option (List ℕ) → NetResult E (Unit {0}) × List ℕ
