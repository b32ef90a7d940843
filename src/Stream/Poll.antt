-- ===== src/Stream/Poll.antt =====
-- The `poll_` methods of src/stream.rs, over those of the three streams that it holds.
use hcnet.Base.{ℕ, ◌≤◌, ◌≡◌, List, ◌++◌, Option, some, length, ◌⊎◌, inr}
use hcnet.Net.{NetApi}
use hcnet.Stream.{MaybeTlsStream, stream, tls_stream, tls_server}

-- `AsyncRead` and `AsyncWrite` of tokio. A poll is ready with a result or, as `none`, pending; a buffer
-- to read into is the bytes that fill it and the room that is left.
pub record AsyncIo (E : Type 0) (S : Type 0) : Type 0 where
  pub poll_read : S → List ℕ → ℕ → Option (E ⊎ Unit {0}) × List ℕ × S
  pub poll_write : S → List ℕ → Option (E ⊎ ℕ) × S
  pub poll_flush : S → Option (E ⊎ Unit {0}) × S
  pub poll_shutdown : S → Option (E ⊎ Unit {0}) × S

-- What the traits ask: a write takes no more bytes than it is given, and a read only fills the room.
pub record IsLawful {E S : Type 0} (io : AsyncIo E S) : Type 0 where
  pub write_bound :
      (s : S) (bytes : List ℕ) (n : ℕ) → (io.poll_write s bytes).0 ≡ some (inr n) → n ≤ length bytes
  pub read_fills :
      (s : S) (filled : List ℕ) (room : ℕ)
      → (more : List ℕ) × ((io.poll_read s filled room).1 ≡ filled ++ more) × (length more ≤ room)

module _ {E : Type 0} (net : NetApi E) (plain : AsyncIo E net.Socket)
    (client : AsyncIo E net.TlsClient) (server : AsyncIo E net.TlsServer) where
  poll_read : MaybeTlsStream net → List ℕ → ℕ → Option (E ⊎ Unit {0}) × List ℕ × MaybeTlsStream net
  poll_read (stream s) filled room =
      let (r, filled', s') = plain.poll_read s filled room in (r, filled', stream s')
  poll_read (tls_stream s) filled room =
      let (r, filled', s') = client.poll_read s filled room in (r, filled', tls_stream s')
  poll_read (tls_server s) filled room =
      let (r, filled', s') = server.poll_read s filled room in (r, filled', tls_server s')

  poll_write : MaybeTlsStream net → List ℕ → Option (E ⊎ ℕ) × MaybeTlsStream net
  poll_write (stream s) bytes = let (r, s') = plain.poll_write s bytes in (r, stream s')
  poll_write (tls_stream s) bytes = let (r, s') = client.poll_write s bytes in (r, tls_stream s')
  poll_write (tls_server s) bytes = let (r, s') = server.poll_write s bytes in (r, tls_server s')

  poll_flush : MaybeTlsStream net → Option (E ⊎ Unit {0}) × MaybeTlsStream net
  poll_flush (stream s) = let (r, s') = plain.poll_flush s in (r, stream s')
  poll_flush (tls_stream s) = let (r, s') = client.poll_flush s in (r, tls_stream s')
  poll_flush (tls_server s) = let (r, s') = server.poll_flush s in (r, tls_server s')

  poll_shutdown : MaybeTlsStream net → Option (E ⊎ Unit {0}) × MaybeTlsStream net
  poll_shutdown (stream s) = let (r, s') = plain.poll_shutdown s in (r, stream s')
  poll_shutdown (tls_stream s) = let (r, s') = client.poll_shutdown s in (r, tls_stream s')
  poll_shutdown (tls_server s) = let (r, s') = server.poll_shutdown s in (r, tls_server s')

  maybe_tls : AsyncIo E (MaybeTlsStream net)
  unfolding poll_read poll_write poll_flush poll_shutdown
  maybe_tls = record {
    poll_read = poll_read;
    poll_write = poll_write;
    poll_flush = poll_flush;
    poll_shutdown = poll_shutdown;
  }

  -- If the three streams do what the traits ask, so does the stream that is one of them.
  maybe_tls-IsLawful : IsLawful plain → IsLawful client → IsLawful server → IsLawful maybe_tls
  unfolding maybe_tls
  maybe_tls-IsLawful p c v = record { write_bound = bounded; read_fills = fills }
    where
      bounded :
          (s : MaybeTlsStream net) (bytes : List ℕ) (n : ℕ)
          → (maybe_tls.poll_write s bytes).0 ≡ some (inr n)
          → n ≤ length bytes
      bounded (stream s) bytes n e = p.write_bound s bytes n e
      bounded (tls_stream s) bytes n e = c.write_bound s bytes n e
      bounded (tls_server s) bytes n e = v.write_bound s bytes n e

      fills :
          (s : MaybeTlsStream net) (filled : List ℕ) (room : ℕ)
          → (more : List ℕ) × ((maybe_tls.poll_read s filled room).1 ≡ filled ++ more)
            × (length more ≤ room)
      fills (stream s) filled room = p.read_fills s filled room
      fills (tls_stream s) filled room = c.read_fills s filled room
      fills (tls_server s) filled room = v.read_fills s filled room
