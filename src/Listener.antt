-- ===== src/Listener.antt =====
-- monolake-core/src/listener.rs: one type for TCP and Unix sockets, with its builder, the connections
-- that it accepts and their conversion to poll-based streams and back.
use Prim.Native.String.{String}
use monolake.Base.{
  ℕ, Bool, List, Option, none, some, if◌then◌else◌, Result, ok, err, map_ok, map_err, Result-cases,
  inl, inr, ◌≡◌, refl, arith,
}
use mathlib.Core.Path.{subst}

-- The sockets of one kind, in monoio and in the standard library: the operations give the socket back
-- as it is afterwards, and a poll gives `none` while it is pending. A conversion that fails gives back what it was given.
pub record Sockets (Error : Type 0) : Type 1 where
  pub Listening : Type 0
  pub Stream : Type 0
  pub PollStream : Type 0
  pub Addr : Type 0
  pub next : Listening → Option (Result (Stream × Addr) Error) × Listening
  pub read : Stream → ℕ → Result (List ℕ) Error × Stream
  pub readv : Stream → List ℕ → Result (List (List ℕ)) Error × Stream
  pub write : Stream → List ℕ → Result ℕ Error × Stream
  pub writev : Stream → List (List ℕ) → Result ℕ Error × Stream
  pub flush : Stream → Result (Unit {0}) Error × Stream
  pub shutdown : Stream → Result (Unit {0}) Error × Stream
  pub try_into_poll_io : Stream → Result PollStream (Error × Stream)
  pub try_into_comp_io : PollStream → Result Stream (Error × PollStream)
  pub poll_read : PollStream → ℕ → Option (Result (List ℕ) Error) × PollStream
  pub poll_write : PollStream → List ℕ → Option (Result ℕ Error) × PollStream
  pub poll_flush : PollStream → Option (Result (Unit {0}) Error) × PollStream
  pub poll_shutdown : PollStream → Option (Result (Unit {0}) Error) × PollStream

-- A stream that has been converted is the same stream when it is converted back.
pub record SocketLaws {Error : Type 0} (s : Sockets Error) : Type 0 where
  pub comp-poll :
      (io : s.Stream) (p : s.PollStream)
      → s.try_into_poll_io io ≡ ok p
      → s.try_into_comp_io p ≡ ok io

pub data Either (A B : Type 0) : Type 0 where
  tcp : A → Either A B
  unix : B → Either A B

-- `AcceptedAddr`.
abbrev pub AcceptedAddr : Type 0 → Type 0 → Type 0
AcceptedAddr SocketAddr UnixAddr = Either SocketAddr UnixAddr

-- What building a listener asks of the operating system.
pub record System {Error : Type 0} (t x : Sockets Error) : Type 1 where
  pub Opts : Type 0
  pub default_opts : Opts
  pub StdUnix : Type 0
  pub Files : Type 0
  pub remove_file : String → Files → Files
  pub bind_unix : String → Files → Result StdUnix Error × Files
  pub is_legacy : Bool
  pub set_nonblocking : StdUnix → Result StdUnix Error
  pub bind_with_config : t.Addr → Opts → Result t.Listening Error
  pub try_clone : StdUnix → Result StdUnix Error
  pub from_std : StdUnix → Result x.Listening Error

module _ {Error : Type 0} (t x : Sockets Error) where
  -- `Listener`, `AcceptedStream` and `AcceptedStreamPoll`.
  abbrev pub Listener : Type 0
  Listener = Either t.Listening x.Listening

  abbrev pub AcceptedStream : Type 0
  AcceptedStream = Either t.Stream x.Stream

  abbrev pub AcceptedStreamPoll : Type 0
  AcceptedStreamPoll = Either t.PollStream x.PollStream

  abbrev pub Addr : Type 0
  Addr = AcceptedAddr t.Addr x.Addr

  abbrev pub tcp_accepted :
      Option (Result (t.Stream × t.Addr) Error) → Option (Result (AcceptedStream × Addr) Error)
  tcp_accepted none = none
  tcp_accepted (some (err e)) = some (err e)
  tcp_accepted (some (ok (io, addr))) = some (ok (tcp io, tcp addr))

  abbrev pub unix_accepted :
      Option (Result (x.Stream × x.Addr) Error) → Option (Result (AcceptedStream × Addr) Error)
  unix_accepted none = none
  unix_accepted (some (err e)) = some (err e)
  unix_accepted (some (ok (io, addr))) = some (ok (unix io, unix addr))

  -- `Stream::next`.
  pub next : Listener → Option (Result (AcceptedStream × Addr) Error) × Listener
  next (tcp l) = let (r, l') = t.next l in (tcp_accepted r, tcp l')
  next (unix l) = let (r, l') = x.next l in (unix_accepted r, unix l')

  pub read : AcceptedStream → ℕ → Result (List ℕ) Error × AcceptedStream
  read (tcp inner) buf = let (r, inner') = t.read inner buf in (r, tcp inner')
  read (unix inner) buf = let (r, inner') = x.read inner buf in (r, unix inner')

  pub readv : AcceptedStream → List ℕ → Result (List (List ℕ)) Error × AcceptedStream
  readv (tcp inner) buf = let (r, inner') = t.readv inner buf in (r, tcp inner')
  readv (unix inner) buf = let (r, inner') = x.readv inner buf in (r, unix inner')

  pub write : AcceptedStream → List ℕ → Result ℕ Error × AcceptedStream
  write (tcp inner) buf = let (r, inner') = t.write inner buf in (r, tcp inner')
  write (unix inner) buf = let (r, inner') = x.write inner buf in (r, unix inner')

  pub writev : AcceptedStream → List (List ℕ) → Result ℕ Error × AcceptedStream
  writev (tcp inner) bufs = let (r, inner') = t.writev inner bufs in (r, tcp inner')
  writev (unix inner) bufs = let (r, inner') = x.writev inner bufs in (r, unix inner')

  pub flush : AcceptedStream → Result (Unit {0}) Error × AcceptedStream
  flush (tcp inner) = let (r, inner') = t.flush inner in (r, tcp inner')
  flush (unix inner) = let (r, inner') = x.flush inner in (r, unix inner')

  pub shutdown : AcceptedStream → Result (Unit {0}) Error × AcceptedStream
  shutdown (tcp inner) = let (r, inner') = t.shutdown inner in (r, tcp inner')
  shutdown (unix inner) = let (r, inner') = x.shutdown inner in (r, unix inner')

  pub try_into_poll_io : AcceptedStream → Result AcceptedStreamPoll (Error × AcceptedStream)
  try_into_poll_io (tcp inner) =
      map_err (λ f. (f.0, tcp f.1)) (map_ok tcp (t.try_into_poll_io inner))
  try_into_poll_io (unix inner) =
      map_err (λ f. (f.0, unix f.1)) (map_ok unix (x.try_into_poll_io inner))

  pub try_into_comp_io : AcceptedStreamPoll → Result AcceptedStream (Error × AcceptedStreamPoll)
  try_into_comp_io (tcp inner) =
      map_err (λ f. (f.0, tcp f.1)) (map_ok tcp (t.try_into_comp_io inner))
  try_into_comp_io (unix inner) =
      map_err (λ f. (f.0, unix f.1)) (map_ok unix (x.try_into_comp_io inner))

  pub poll_read : AcceptedStreamPoll → ℕ → Option (Result (List ℕ) Error) × AcceptedStreamPoll
  poll_read (tcp inner) buf = let (r, inner') = t.poll_read inner buf in (r, tcp inner')
  poll_read (unix inner) buf = let (r, inner') = x.poll_read inner buf in (r, unix inner')

  pub poll_write : AcceptedStreamPoll → List ℕ → Option (Result ℕ Error) × AcceptedStreamPoll
  poll_write (tcp inner) buf = let (r, inner') = t.poll_write inner buf in (r, tcp inner')
  poll_write (unix inner) buf = let (r, inner') = x.poll_write inner buf in (r, unix inner')

  pub poll_flush : AcceptedStreamPoll → Option (Result (Unit {0}) Error) × AcceptedStreamPoll
  poll_flush (tcp inner) = let (r, inner') = t.poll_flush inner in (r, tcp inner')
  poll_flush (unix inner) = let (r, inner') = x.poll_flush inner in (r, unix inner')

  pub poll_shutdown : AcceptedStreamPoll → Option (Result (Unit {0}) Error) × AcceptedStreamPoll
  poll_shutdown (tcp inner) = let (r, inner') = t.poll_shutdown inner in (r, tcp inner')
  poll_shutdown (unix inner) = let (r, inner') = x.poll_shutdown inner in (r, unix inner')

  -- A stream that is converted and converted back is the stream that it was, of the same kind.
  pub comp-poll :
      (tl : SocketLaws t) (xl : SocketLaws x) (io : AcceptedStream) (p : AcceptedStreamPoll)
      → try_into_poll_io io ≡ ok p
      → try_into_comp_io p ≡ ok io
  unfolding try_into_poll_io try_into_comp_io
  comp-poll tl xl (tcp inner) p e = elim (Result-cases (t.try_into_poll_io inner)) [
    | inr (f, q) ↦ absurd (ground (arith, e, q))
    | inl (p', q) ↦
        let known : tcp p' ≡ p = ground (arith, e, q) in
        subst (λ a. try_into_comp_io a ≡ ok (tcp inner)) known
          (rw (tl.comp-poll inner p' q, try_into_comp_io) refl)
  ]
  comp-poll tl xl (unix inner) p e = elim (Result-cases (x.try_into_poll_io inner)) [
    | inr (f, q) ↦ absurd (ground (arith, e, q))
    | inl (p', q) ↦
        let known : unix p' ≡ p = ground (arith, e, q) in
        subst (λ a. try_into_comp_io a ≡ ok (unix inner)) known
          (rw (xl.comp-poll inner p' q, try_into_comp_io) refl)
  ]

  module _ (s : System t x) where
    -- `ListenerBuilder`.
    abbrev pub ListenerBuilder : Type 0
    ListenerBuilder = Either (t.Addr × s.Opts) s.StdUnix

    pub bind_tcp : t.Addr → s.Opts → Result ListenerBuilder Error
    bind_tcp addr opts = ok (tcp (addr, opts))

    -- A file that stands at the path is removed first, and an error of that is dropped.
    pub bind_unix : String → s.Files → Result ListenerBuilder Error × s.Files
    bind_unix path files =
        let (r, files') = s.bind_unix path (s.remove_file path files) in
        (
          elim r [
            | err e ↦ err e
            | ok listener ↦
                if s.is_legacy then map_ok unix (s.set_nonblocking listener) else ok (unix listener)
          ],
          files',
        )

    -- `build`, which is also `make_via_ref`: an old listener is not looked at.
    pub build : ListenerBuilder → Result Listener Error
    build (tcp (addr, opts)) = map_ok tcp (s.bind_with_config addr opts)
    build (unix listener) = elim (s.try_clone listener) [
      | err e ↦ err e
      | ok sys_listener ↦ map_ok unix (s.from_std sys_listener)
    ]
